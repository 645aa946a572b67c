-- ===== src/ConsistentHash/Tests.antt =====
-- ConsistentHashSelector on a concrete ring: the list of the backends, of which the first is selected.
use lb.Common.{
  ℕ, ◌<◌, ◌≡◌, ◌↔◌, refl, List, [], ◌∷◌, throws, no_nodes, all_excluded, length, get_elem?, some,
  decimal, int_mod,
}
use lb.Fixtures.{text_asio, host_ctre, zero_hash, decimal_cast, local}
use lb.Fixtures.Line.{line}
use lb.Backend.{Endpoint, endpoint_text, to_string}
use lb.ConsistentHash.{replicate, ConsistentHash, select_backend, exclude_backend}
use lb.ConsistentHash.Ring.{replica_text, replicate_lem, exclude_last}

abbrev two : ConsistentHash
two = record { ring = local 81 ∷ local 82 ∷ [] }

abbrev client : Endpoint
client = record { address = "10.0.0.1"; port = 3 }

abbrev zeros : List ℕ
zeros = 0 ∷ 0 ∷ []

replicate_lem_example :
    (length zeros ≡ 2)
    × (2 < int_mod)
    × ((j : ℕ) → j < 2 → get_elem? zeros j ≡ some (zero_hash.hash (replica_text (local 81) j)))
unfolding replicate to_string endpoint_text decimal
replicate_lem_example = replicate_lem (local 81) 2 zeros refl

exclude_last_example :
    let s : ConsistentHash = record { ring = local 81 ∷ [] } in
    let t = (exclude_backend (local 81) s).0 in
    (((exclude_backend (local 81) s).1 ≡ throws all_excluded) ↔ (t.ring ≡ []))
    × ((exclude_backend (local 81) s).1 ≡ throws all_excluded
        → select_backend client t ≡ (t, throws no_nodes))
exclude_last_example = exclude_last client (local 81) (record { ring = local 81 ∷ [] })
