-- ===== src/Connector/WeightedPromise.antt =====
-- WeightedRoundRobinSelector keeps the promise that the connector needs.
use lb.Common.{
  ℕ, zero, suc, ◌<◌, ◌≡◌, refl, ap, ◌⊎◌, inl, inr, List, [], ◌∷◌, Option, some, none, Outcome, ok,
  throws, arith, length, all_excluded, get_elem?, set, erase_at, Bool-cases, map, some_injective,
  length-set, size_mod, ltb, ◌+◌, ◌%◌,
}
use lb.Platform.{Asio}
use lb.Backend.{Backend, backend_eq}
use lb.Backend.Equality.{backend_eq_refl}
use lb.Selector.{weighted_round_robin_class}
use lb.Weighted
use mathlib.Core.Option
use lb.Weighted.{WeightWrapper, Weighted, find_index, advance_counter, advance_entry}
use lb.Weighted.Schedule.{AllIdle}
use lb.Weighted.Invariant.{IsValid, select_at_counter}
use lb.Weighted.Exclusion.{idle, exclude_present, AllIdle-map, length-map-idle}
use lb.Connector.Retry.{Shrinks}
use lb.Connector.Promise.{left_over}

module _ ⦃asio : Asio⦄ where
  pub find_index-at :
      (es : List WeightWrapper) (c : ℕ) (e : WeightWrapper)
      → get_elem? es c ≡ some e
      → (i : ℕ) × (find_index e.backend es ≡ some i)
  unfolding find_index
  find_index-at [] c e g = cc
  find_index-at (x ∷ es) zero e g =
      let same : x ≡ e = cc in (0, rw (same, backend_eq_refl e.backend))
  find_index-at (x ∷ es) (suc c) e g =
      let (i, found) = find_index-at es c e g in
      elim (Bool-cases (backend_eq x.backend e.backend)) [
        | inl here ↦ (0, rw here)
        | inr further ↦ (suc i, rw (further, found))
      ]

  pub get_elem?-set :
      (es : List WeightWrapper) (c : ℕ) (e f : WeightWrapper)
      → get_elem? es c ≡ some e
      → get_elem? (set es c f) c ≡ some f
  get_elem?-set [] c e f g = cc
  get_elem?-set (x ∷ es) zero e f g = refl
  get_elem?-set (x ∷ es) (suc c) e f g = get_elem?-set es c e f g

  pub length-erase_at-found :
      (b : Backend) (i : ℕ) (es : List WeightWrapper)
      → find_index b es ≡ some i
      → length (erase_at es i) < length es
  unfolding find_index
  length-erase_at-found b i [] h = cc
  length-erase_at-found b zero (e ∷ es) h = omega arith
  length-erase_at-found b (suc i) (e ∷ es) h = elim (Bool-cases (backend_eq e.backend b)) [
    | inl here ↦ let first : ◌≡◌ {A = Option ℕ} (some 0) (some (suc i)) = rw here at h in cc
    | inr further ↦
        let later : Option.map suc (find_index b es) ≡ some (suc i) = rw further at h in
        let found = one_less (find_index b es) later in
        omega (arith, length-erase_at-found b i es found)
  ]
    where
      one_less : (o : Option ℕ) → Option.map suc o ≡ some (suc i) → o ≡ some i
      one_less none e = cc
      one_less (some j) e = let n : suc j ≡ suc i = some_injective e in ap some (omega arith)

  -- The entry that SelectBackend serves stays in its place.
  select-set :
      (s : Weighted) (e : WeightWrapper)
      → get_elem? s.backends s.counter ≡ some e
      → (k : ℕ) × ((Weighted.select_backend s).0.backends
          ≡ set s.backends s.counter (record e { current = k }))
  unfolding Weighted.select_backend
  select-set s e g =
      let k : ℕ = (e.current + 1) % size_mod in
      elim (Bool-cases (ltb k e.weight)) [
        | inl on ↦
            (k, rw (g, Weighted.select_backend) (rw (g, advance_counter) (rw (on, advance_entry))))
        | inr over ↦ (
          0,
          rw (g, Weighted.select_backend) (rw (g, advance_counter) (rw (over, advance_entry))),
        )
      ]

  pub weighted-select :
      (s : Weighted)
      → IsValid s
      → (t : Weighted) × (b : Backend) × (Weighted.select_backend s ≡ (t, ok b))
        × (length t.backends ≡ length s.backends)
        × IsValid t
        × ((i : ℕ) × (find_index b t.backends ≡ some i))
  weighted-select s v =
      let (e, g, served, v') = select_at_counter s v in
      let (k, kept) = select-set s e g in
      let there = get_elem?-set s.backends s.counter e (record e { current = k }) g in
      (
        (Weighted.select_backend s).0,
        e.backend,
        ap (λ (o : Outcome Backend). ((Weighted.select_backend s).0, o)) served,
        rw kept (length-set s.backends s.counter (record e { current = k })),
        v',
        rw kept (
            find_index-at (set s.backends s.counter (record e { current = k })) s.counter
              (record e { current = k }) there),
      )

  fresh-IsValid :
      (es : List WeightWrapper)
      → AllIdle es
      → 0 < length es
      → IsValid (record { backends = es; counter = 0 })
  fresh-IsValid [] all pos = absurd (omega arith)
  fresh-IsValid (e ∷ es) all pos = record {
    in_range = pos;
    one_turn = (let z = all.0 in omega arith, all.1);
  }

  pub weighted-exclude :
      (b : Backend) (i : ℕ) (s : Weighted)
      → IsValid s
      → find_index b s.backends ≡ some i
      → (t : Weighted) × ((Weighted.exclude_backend b s ≡ (t, throws all_excluded))
          ⊎ ((Weighted.exclude_backend b s ≡ (t, ok tt))
              × IsValid t
              × (0 < length t.backends)
              × (length t.backends < length s.backends)))
  weighted-exclude b i s v found =
      let left : List WeightWrapper = erase_at s.backends i in
      rw (exclude_present b i s v found) (
        left_over (λ es. record { backends = es; counter = 0 })
          (λ (t : Weighted). length t.backends) IsValid (λ es. refl) (length s.backends)
          (map idle left) (fresh-IsValid (map idle left) (AllIdle-map left))
          (omega (arith, length-map-idle left, length-erase_at-found b i s.backends found)))

  -- WeightedRoundRobinSelector keeps it in valid states.
  abbrev pub weighted-Shrinks : Shrinks weighted_round_robin_class
  weighted-Shrinks = record {
    size = λ s. length s.backends;
    Fit = IsValid;
    Stands = λ b s. (i : ℕ) × (find_index b s.backends ≡ some i);
    select = λ client s v pos. weighted-select s v;
    exclude = λ b s v there. weighted-exclude b there.0 s v there.1;
  }
