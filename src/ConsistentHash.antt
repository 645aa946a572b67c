-- ===== src/ConsistentHash.antt =====
-- BackendCHTraits and class ConsistentHashSelector of src/lb/tcp/selectors.hpp and selectors.cpp.
-- SelectBackend and ExcludeBackend hold the mutex, so that concurrent calls are a sequence of these
-- functions.
pub mod Ring
mod Tests
use lb.Common.{
  ℕ, zero, suc, ◌+◌, String, Bool, List, [], ◌∷◌, Outcome, throws, ok, undefined, ◌>>=◌, Action,
  and_then, for_each, all_excluded, text_append, if◌then◌else◌, ◌==◌, int_mod,
}
use lb.Platform.{Asio, Ctre, Yaml, StdHash, LexicalCast}
use lb.Platform.Router.{HashTraits, Router}
use lb.Backend.{Backend, Endpoint, of_endpoint, to_string, make_url_backend}
use lb.Endpoints.{endpoint_nodes, read_backend}

module _ ⦃asio : Asio⦄ ⦃std : StdHash⦄ where
  -- BackendCHTraits::GetHash
  unfoldable pub get_hash : Backend → ℕ
  unfolding to_string
  get_hash backend = std.hash (to_string backend)

module _ ⦃asio : Asio⦄ ⦃std : StdHash⦄ ⦃ctre : Ctre⦄ ⦃lexical : LexicalCast⦄ where
  -- The hash of one replica: GetHash takes a Backend, so that the text is read as a URL.
  unfoldable pub replica_hash : Backend → ℕ → Outcome ℕ
  unfolding get_hash make_url_backend
  replica_hash backend i = do
    replica ← make_url_backend (text_append (to_string backend) (text_append "#" (lexical.cast i)))
    ok (get_hash replica)

  -- The loop of Replicate, with `left` rounds left. Its counter is an int: the increment behind the
  -- largest one has no defined result.
  unfoldable pub replicate_from : Backend → ℕ → ℕ → Outcome (List ℕ)
  unfolding replica_hash
  replicate_from backend i zero = ok []
  replicate_from backend i (suc left) = do
    hash ← replica_hash backend i
    rest ←
        (let next = replicate_from backend (i + 1) left in
          if i + 1 == int_mod then undefined else next)
    ok (hash ∷ rest)

  -- BackendCHTraits::Replicate
  unfoldable pub replicate : Backend → ℕ → Outcome (List ℕ)
  unfolding replicate_from
  replicate backend replicas = replicate_from backend 0 replicas

  -- BackendCHTraits
  abbrev pub backend_traits : HashTraits Backend
  backend_traits = record { get_hash = get_hash; replicate = replicate }

module _ ⦃asio : Asio⦄ ⦃std : StdHash⦄ ⦃ctre : Ctre⦄ ⦃lexical : LexicalCast⦄
    ⦃router : Router Backend backend_traits⦄ where
  pub record ConsistentHash : Type 0 where
    pub ring : router.Ring

  -- ConsistentHashSelector::ConsistentHashSelector
  unfoldable pub with_replicas : ℕ → ConsistentHash
  with_replicas spawn_replicas = record { ring = router.with_replicas spawn_replicas }

  -- ConsistentHashSelector::SelectBackend: the client's endpoint is converted to a Backend.
  unfoldable pub select_backend : Endpoint → Action ConsistentHash Backend
  select_backend client s = (s, router.select_node (of_endpoint client) s.ring)

  -- ConsistentHashSelector::ExcludeBackend
  unfoldable pub exclude_backend : Backend → Action ConsistentHash (Unit {0})
  exclude_backend b s =
      let left = router.erase_node b s.ring in
      (record { ring = left }, if router.empty left then throws all_excluded else ok tt)

  -- ring_.EmplaceNode(…)
  unfoldable pub emplace : Backend → Action ConsistentHash (Unit {0})
  emplace b s = let r = router.emplace_node b s.ring in (record { ring = r.0 }, r.1)

module _ ⦃asio : Asio⦄ ⦃std : StdHash⦄ ⦃ctre : Ctre⦄ ⦃lexical : LexicalCast⦄
    ⦃router : Router Backend backend_traits⦄ ⦃yaml : Yaml⦄ where
  -- ConsistentHashSelector::Configure
  unfoldable pub configure : yaml.Node → Action ConsistentHash (Unit {0})
  unfolding endpoint_nodes read_backend emplace for_each
  configure balancing_node s =
      and_then (s, endpoint_nodes balancing_node)
        (for_each (λ ep s'. and_then (s', read_backend ep) emplace))
