-- ===== src/RoundRobin/Tests.antt =====
-- RoundRobinSelector on concrete backends.
use lb.Common.{◌≡◌, refl, List, [], ◌∷◌, In, Perm, ok, arith, repeat}
use lb.Fixtures.{local, text_asio, host_ctre, doc_yaml, Doc, map, entry, end, str, number}
use lb.Common.{pos}
use lb.Backend.{Backend, backend_eq}
use lb.RoundRobin.{RoundRobin, select_backend}
use lb.RoundRobin.Rotation.{fair_round}
use lb.RoundRobin.Exclusion.{IsValid, select, exclude, run, Spared, run-IsValid, select-Spared}

abbrev three : RoundRobin
three = record { counter = 0; backends = local 8081 ∷ local 8082 ∷ local 8083 ∷ [] }

-- After an exclusion the counter may point behind the last backend.
abbrev behind : RoundRobin
behind = record { counter = 2; backends = local 8081 ∷ local 8082 ∷ [] }

fair_round_example :
    (t : RoundRobin) × (xs : List Backend) × (repeat 2 select_backend behind ≡ (t, ok xs))
    × Perm xs behind.backends
fair_round_example = fair_round behind (omega arith) (omega arith) (omega arith)

run-IsValid_example : IsValid (run three (select ∷ exclude (local 8082) ∷ select ∷ []))
run-IsValid_example =
    run-IsValid (select ∷ exclude (local 8082) ∷ select ∷ []) three
      (record { counter_fits = omega arith; size_fits = omega arith })

select-Spared_example :
    In (local 8081) three.backends × Spared (local 8081) (select ∷ exclude (local 8082) ∷ [])
unfolding run backend_eq
select-Spared_example =
    select-Spared (select ∷ exclude (local 8082) ∷ []) three
      (record { counter = 0; backends = local 8081 ∷ local 8083 ∷ [] }) (local 8081) refl

abbrev endpoint_list : List Doc
endpoint_list =
    map (entry "ip" (str "127.0.0.1") (entry "port" (number (pos 8080)) end))
    ∷ map (entry "ip" (str "127.0.0.2") end)
    ∷ []
