-- ===== src/IpHash/Tests.antt =====
-- IpHashSelector on concrete backends.
use lb.Common.{◌*◌, ◌%◌, ◌≢◌, [], ◌∷◌}
use lb.Fixtures.{text_asio, host_ctre, doc_yaml, zero_hash, local}
use lb.Backend.{Endpoint}
use lb.IpHash.{IpHash, compute_hash}
use lb.IpHash.Selection.{neighbour_ports}

abbrev two : IpHash
two = record { backends = local 81 ∷ local 82 ∷ [] }

abbrev client : Endpoint
client = record { address = "10.0.0.1"; port = 3 }

neighbour_ports_example :
    compute_hash client % (2 * 1)
    ≢ compute_hash (record { address = "10.0.0.1"; port = 4 }) % (2 * 1)
neighbour_ports_example = neighbour_ports "10.0.0.1" 3 1
