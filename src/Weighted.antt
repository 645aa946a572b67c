-- ===== src/Weighted.antt =====
-- class WeightedRoundRobinSelector of src/lb/tcp/selectors.hpp and selectors.cpp. Every method holds
-- the mutex, so that concurrent calls are a sequence of these functions.
pub mod Schedule
pub mod Invariant
pub mod Configuration
pub mod Exclusion
mod Tests
use lb.Common.{
  ℕ, zero, suc, ◌+◌, ◌%◌, Bool, List, [], ◌∷◌, ◌++◌, Option, none, some, Outcome, ok, throws,
  undefined, ◌>>=◌, Action, and_then, for_each, get_elem?, set, erase_at, length, size_mod, ltb,
  ◌==◌, if◌then◌else◌, not, field_missing, bad_subscript, endpoint_undefined,
}
use mathlib.Core.Option
use lb.Platform.{Asio, Ctre, Yaml, StdSort}
use lb.Backend.{Backend, backend_eq, make_endpoint, make_url_backend}
use lb.Endpoints.{endpoint_nodes}
use lb.Vectors.{next_counter, check_left}

module _ ⦃asio : Asio⦄ where
  pub record WeightWrapper : Type 0 where
    pub backend : Backend
    pub weight : ℕ
    pub current : ℕ

  pub record Weighted : Type 0 where
    pub backends : List WeightWrapper
    pub counter : ℕ

  unfoldable pub initial : Weighted
  initial = record { backends = []; counter = 0 }

  -- The entry that is served, after one more selection of it.
  unfoldable pub advance_entry : WeightWrapper → ℕ → Weighted → Weighted
  unfolding next_counter
  advance_entry entry size s =
      if ltb ((entry.current + 1) % size_mod) entry.weight
      then record s {
        backends =
            set s.backends s.counter (record entry { current = (entry.current + 1) % size_mod });
      }
      else record s {
        backends = set s.backends s.counter (record entry { current = 0 });
        counter = next_counter s.counter size;
      }

  -- WeightedRoundRobinSelector::AdvanceCounter
  unfoldable pub advance_counter : Action Weighted (Unit {0})
  unfolding advance_entry
  advance_counter s = elim (get_elem? s.backends s.counter) [
    | none ↦ (s, undefined)
    | some entry ↦ (advance_entry entry (length s.backends) s, ok tt)
  ]

  -- WeightedRoundRobinSelector::SelectBackend
  unfoldable pub select_backend : Action Weighted Backend
  unfolding advance_counter
  select_backend s = elim (get_elem? s.backends s.counter) [
    | none ↦ (s, undefined)
    | some entry ↦ and_then (advance_counter s) (λ _ s'. (s', ok entry.backend))
  ]

  -- The index at which the loop of ExcludeBackend stops.
  unfoldable pub find_index : Backend → List WeightWrapper → Option ℕ
  find_index b [] = none
  find_index b (e ∷ es) =
      let later = Option.map suc (find_index b es) in
      if backend_eq e.backend b then some 0 else later

  -- backends_[counter_].current=0, unless the entry that is served goes itself
  unfoldable pub reset_current : ℕ → Action Weighted (Unit {0})
  reset_current i s = if i == s.counter then (s, ok tt) else elim (get_elem? s.backends s.counter) [
    | none ↦ (s, undefined)
    | some e ↦ (record s { backends = set s.backends s.counter (record e { current = 0 }) }, ok tt)
  ]

  -- What follows the loop of ExcludeBackend.
  unfoldable pub restart : Action Weighted (Unit {0})
  unfolding check_left
  restart s = (record s { counter = 0 }, check_left s.backends)

  -- WeightedRoundRobinSelector::ExcludeBackend
  unfoldable pub exclude_backend : Backend → Action Weighted (Unit {0})
  unfolding find_index reset_current restart
  exclude_backend b s = elim (find_index b s.backends) [
    | none ↦ restart s
    | some i ↦
        and_then (reset_current i s)
          λ _ s'. restart (record s' { backends = erase_at s'.backends i })
  ]

module _ ⦃yaml : Yaml⦄ where
  -- ReadWeight
  unfoldable pub read_weight : yaml.Node → Outcome ℕ
  read_weight ep =
      if yaml.is_scalar ep
      then throws bad_subscript
      else if yaml.is_defined (yaml.child ep "weight")
      then yaml.as_size (yaml.child ep "weight")
      else throws (field_missing "weight")

module _ ⦃asio : Asio⦄ ⦃ctre : Ctre⦄ ⦃yaml : Yaml⦄ where
  -- The backend of an endpoint, in the order of the tests of this class.
  unfoldable pub read_weighted_backend : yaml.Node → Outcome Backend
  unfolding make_endpoint make_url_backend
  read_weighted_backend ep =
      if yaml.is_defined (yaml.child ep "url")
      then (do text ← yaml.as_string (yaml.child ep "url"); make_url_backend text)
      else if yaml.is_defined (yaml.child ep "ip")
      then (if not (yaml.is_defined (yaml.child ep "port"))
          then throws (field_missing "port")
          else (do
            ip ← yaml.as_string (yaml.child ep "ip")
            port ← yaml.as_int (yaml.child ep "port")
            make_endpoint ip port))
      else throws endpoint_undefined

  -- One endpoint of the configuration.
  unfoldable pub read_entry : yaml.Node → Outcome WeightWrapper
  unfolding read_weight read_weighted_backend
  read_entry ep = do
    weight ← read_weight ep
    backend ← read_weighted_backend ep
    ok (record { backend = backend; weight = weight; current = 0 })

  -- The body of the loop over the endpoints.
  unfoldable pub push_entry : yaml.Node → Action Weighted (Unit {0})
  unfolding read_entry
  push_entry ep s =
      and_then (s, read_entry ep) λ e s'. (record s' { backends = s'.backends ++ e ∷ [] }, ok tt)

  -- WeightedRoundRobinSelector::Configure
  unfoldable pub configure : ⦃std : StdSort⦄ → yaml.Node → Action Weighted (Unit {0})
  unfolding endpoint_nodes push_entry
  configure ⦃std⦄ balancing_node s =
      and_then (and_then (s, endpoint_nodes balancing_node) (for_each push_entry)) λ _ s'.
        (record s' { backends = std.sort (λ a b. ltb b.weight a.weight) s'.backends }, ok tt)
