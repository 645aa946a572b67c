-- ===== src/RoundRobin.antt =====
-- class RoundRobinSelector of src/lb/tcp/selectors.hpp and selectors.cpp. Every method holds the
-- mutex, so that concurrent calls are a sequence of these functions.
pub mod Rotation
pub mod Exclusion
pub mod Configuration
mod Tests
use lb.Common.{
  ℕ, ◌+◌, ◌%◌, List, [], ◌∷◌, ◌++◌, undefined, Action, and_then, or_undefined, length, get_elem?,
  size_mod, if◌then◌else◌, ◌==◌,
}
use lb.Platform.{Asio, Ctre, Yaml}
use lb.Backend.{Backend}
use lb.Endpoints.{endpoint_nodes, push_endpoints}
use lb.Vectors.{remove_all, check_left, next_counter}

module _ ⦃asio : Asio⦄ where
  pub record RoundRobin : Type 0 where
    pub counter : ℕ
    pub backends : List Backend

  -- A selector that has just been constructed.
  unfoldable pub initial : RoundRobin
  initial = record { counter = 0; backends = [] }

  -- backends_.emplace_back(…)
  unfoldable pub push_back : Backend → RoundRobin → RoundRobin
  push_back b s = record s { backends = s.backends ++ b ∷ [] }

  -- RoundRobinSelector::SelectBackend: with no backend the division has no defined result.
  unfoldable pub select_backend : Action RoundRobin Backend
  unfolding next_counter
  select_backend s =
      let counter = next_counter s.counter (length s.backends) in
      if length s.backends == 0
      then (s, undefined)
      else (record s { counter = counter }, or_undefined (get_elem? s.backends counter))

  -- RoundRobinSelector::ExcludeBackend
  unfoldable pub exclude_backend : Backend → Action RoundRobin (Unit {0})
  unfolding remove_all check_left
  exclude_backend b s =
      let left = remove_all b s.backends in (record s { backends = left }, check_left left)

module _ ⦃asio : Asio⦄ ⦃ctre : Ctre⦄ ⦃yaml : Yaml⦄ where
  -- RoundRobinSelector::Configure
  unfoldable pub configure : yaml.Node → Action RoundRobin (Unit {0})
  unfolding endpoint_nodes push_endpoints push_back
  configure balancing_node s =
      and_then (s, endpoint_nodes balancing_node) (push_endpoints push_back)
