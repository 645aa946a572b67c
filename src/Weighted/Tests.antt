-- ===== src/Weighted/Tests.antt =====
-- WeightedRoundRobinSelector on concrete backends.

use lb.Common.{String, ℕ, ◌≡◌, refl, [], ◌∷◌, Perm, some, none, ok, arith, repeat, pos}
use lb.Fixtures.{
  text_asio, host_ctre, doc_yaml, Doc, map, seq, cons, nil, entry, end, str, number, local,
}
use lb.Fixtures.Sorting.{insertion_sort}
use lb.Platform.{Descending}
use lb.Backend.{backend_eq, of_url}
use lb.Endpoints.{endpoint_nodes}
use lb.Weighted.{
  WeightWrapper, Weighted, select_backend, find_index, exclude_backend, configure, initial,
}
use lb.Weighted.Schedule.{round_lem, AllIdle}
use lb.Weighted.Invariant.{IsValid}
use lb.Weighted.Exclusion.{round_after_exclusion, exclude_absent_stale}
use lb.Weighted.Configuration.{read_entries, configure-initial}

abbrev weighing : ℕ → ℕ → ℕ → WeightWrapper
weighing port weight current = record { backend = local port; weight = weight; current = current }

-- The second of three backends has been served twice of three times.
abbrev under_way : Weighted
under_way = record {
  backends = weighing 81 2 0 ∷ weighing 82 3 2 ∷ weighing 83 0 0 ∷ [];
  counter = 1;
}

under_way-IsValid : IsValid under_way
under_way-IsValid = record { in_range = omega arith; one_turn = (refl, (omega arith, (refl, tt))) }

abbrev fresh : Weighted
fresh = record { backends = weighing 81 2 0 ∷ weighing 82 0 0 ∷ []; counter = 0 }

round_lem_example :
    repeat 3 select_backend fresh ≡ (fresh, ok (local 81 ∷ local 81 ∷ local 82 ∷ []))
round_lem_example =
    round_lem fresh refl (refl, (refl, tt)) (omega arith, (omega arith, tt)) (omega arith)

first_found : find_index (local 81) under_way.backends ≡ some 0
unfolding find_index backend_eq
first_found = refl

not_found : find_index (local 84) under_way.backends ≡ none
unfolding find_index backend_eq
not_found = refl

round_after_exclusion_example :
    let t = (exclude_backend (local 81) under_way).0 in
    repeat 4 select_backend t ≡ (t, ok (local 82 ∷ local 82 ∷ local 82 ∷ local 83 ∷ []))
round_after_exclusion_example =
    round_after_exclusion (local 81) 0 under_way under_way-IsValid
      (omega arith, (omega arith, (omega arith, tt))) (omega arith) first_found

exclude_absent_stale_example : ¬ IsValid (exclude_backend (local 84) under_way).0
exclude_absent_stale_example =
    exclude_absent_stale (local 84) under_way (weighing 82 3 2) not_found (omega arith) refl
      (omega arith)

abbrev weighted_endpoint : String → ℕ → Doc
weighted_endpoint host weight =
    map (entry "url" (str host) (entry "weight" (number (pos weight)) end))

abbrev weighted_config : Doc
weighted_config = map (
    entry "endpoints" (seq (cons (weighted_endpoint "a" 2) (cons (weighted_endpoint "b" 5) nil)))
      end)

abbrev read_url : String → ℕ → WeightWrapper
read_url host weight = record {
  backend = of_url (record {
    whole_url = host;
    protocol = "http";
    hostname = host;
    port = "80";
    path = "";
    query = "";
    fragment = "";
  });
  weight = weight;
  current = 0;
}

configure-initial_example :
    (s : Weighted) × (configure weighted_config initial ≡ (s, ok tt))
    × Perm s.backends (read_url "a" 2 ∷ read_url "b" 5 ∷ [])
    × Descending (λ e. e.weight) s.backends
    × AllIdle s.backends
    × (s.counter ≡ 0)
unfolding endpoint_nodes read_entries
configure-initial_example =
    configure-initial weighted_config (weighted_endpoint "a" 2 ∷ weighted_endpoint "b" 5 ∷ [])
      (read_url "a" 2 ∷ read_url "b" 5 ∷ []) refl refl
