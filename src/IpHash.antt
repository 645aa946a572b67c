-- ===== src/IpHash.antt =====
-- class IpHashSelector of src/lb/tcp/selectors.hpp and selectors.cpp. Every method holds the mutex, so
-- that concurrent calls are a sequence of these functions.
pub mod Selection
mod Tests
use lb.Common.{
  ℕ, ◌+◌, ◌*◌, ◌%◌, List, [], ◌∷◌, ◌++◌, undefined, Action, and_then, or_undefined, length,
  get_elem?, size_mod, if◌then◌else◌, ◌==◌,
}
use lb.Platform.{Asio, Ctre, Yaml, StdHash}
use lb.Backend.{Backend, Endpoint}
use lb.Endpoints.{endpoint_nodes, push_endpoints}
use lb.Vectors.{remove_all, check_left}

module _ ⦃asio : Asio⦄ where
  pub record IpHash : Type 0 where
    pub backends : List Backend

  unfoldable pub initial : IpHash
  initial = record { backends = [] }

  -- backends_.emplace_back(…)
  unfoldable pub push_back : Backend → IpHash → IpHash
  push_back b s = record { backends = s.backends ++ b ∷ [] }

  -- IpHashSelector::ExcludeBackend
  unfoldable pub exclude_backend : Backend → Action IpHash (Unit {0})
  unfolding remove_all check_left
  exclude_backend b s =
      let left = remove_all b s.backends in (record { backends = left }, check_left left)

module _ ⦃asio : Asio⦄ ⦃std : StdHash⦄ where
  -- ComputeHash: products and sum of std::size_t; the product with the port fits in an int.
  unfoldable pub compute_hash : Endpoint → ℕ
  compute_hash ep =
      (std.hash (asio.to_string ep.address) * 37 % size_mod + ep.port * 37 * 37) % size_mod

  -- IpHashSelector::SelectBackend
  unfoldable pub select_backend : Endpoint → Action IpHash Backend
  unfolding compute_hash
  select_backend client_address s = if length s.backends == 0 then (s, undefined) else (
    s,
    or_undefined (get_elem? s.backends (compute_hash client_address % length s.backends)),
  )

module _ ⦃asio : Asio⦄ ⦃ctre : Ctre⦄ ⦃yaml : Yaml⦄ where
  -- IpHashSelector::Configure
  unfoldable pub configure : yaml.Node → Action IpHash (Unit {0})
  unfolding endpoint_nodes push_endpoints push_back
  configure balancing_node s =
      and_then (s, endpoint_nodes balancing_node) (push_endpoints push_back)
