-- ===== src/Connector/Clients/OfWeighted.antt =====
-- WeightedRoundRobinSelector of src/lb/tcp/selectors.cpp, shared by clients.
use lb.Common.{
  ℕ, zero, suc, ◌<◌, ◌≡◌, refl, ap, ◌∙◌, ◌⊎◌, inl, inr, true, false, List, [], ◌∷◌, some, Outcome,
  ok, throws, arith, length, all_excluded, get_elem?, set, erase_at, Bool-cases, length-set,
  size_mod, ltb, ◌+◌, ◌%◌, ◌==◌, get_elem?_in_range, Option-cases,
}
use lb.Platform.{Asio}
use lb.Backend.{Backend}
use lb.Selector.{weighted_round_robin_class}
use lb.Vectors.{next_counter}
use lb.Vectors.Counter.{next_counter-lt}
use lb.Weighted.{
  WeightWrapper, Weighted, select_backend, exclude_backend, advance_counter, advance_entry,
  find_index, reset_current, restart,
}
use lb.Weighted.Exclusion.{exclude_absent}
use lb.Connector.Promise.{left_over}
use lb.Connector.WeightedPromise.{find_index-at, get_elem?-set, length-erase_at-found}
use lb.Connector.Clients.Shared.{Shares, is_found}
use lb.Connector.Clients.OfVectors.{check_left-kept}

module _ ⦃asio : Asio⦄ where
  -- What the loop of ExcludeBackend finds depends on the backends alone.
  find_index-set :
      (b : Backend) (es : List WeightWrapper) (c k : ℕ) (e : WeightWrapper)
      → get_elem? es c ≡ some e
      → find_index b (set es c (record e { current = k })) ≡ find_index b es
  unfolding find_index
  find_index-set b [] c k e g = refl
  find_index-set b (x ∷ es) zero k e g = let same : x ≡ e = cc in rw same
  find_index-set b (x ∷ es) (suc c) k e g = rw (find_index-set b es c k e g)

  -- SelectBackend serves the entry at a counter in range, and stays in range.
  select-in_range :
      (s : Weighted) (e : WeightWrapper)
      → s.counter < length s.backends
      → get_elem? s.backends s.counter ≡ some e
      → (k : ℕ) × (c : ℕ) × (select_backend s ≡ (
        record { backends = set s.backends s.counter (record e { current = k }); counter = c },
        ok e.backend,
      ))
        × (c < length s.backends)
  unfolding select_backend
  select-in_range s e lt g =
      let k : ℕ = (e.current + 1) % size_mod in
      elim (Bool-cases (ltb k e.weight)) [
        | inl on ↦ (
          k,
          s.counter,
          rw (g, select_backend) (rw (g, advance_counter) (rw (on, advance_entry))),
          lt,
        )
        | inr over ↦ (
          0,
          next_counter s.counter (length s.backends),
          rw (g, select_backend) (rw (g, advance_counter) (rw (over, advance_entry))),
          next_counter-lt s.counter (length s.backends) (omega (arith, lt)),
        )
      ]

  pub weighted-share :
      (s : Weighted)
      → s.counter < length s.backends
      → (t : Weighted) × (b : Backend) × (select_backend s ≡ (t, ok b))
        × (t.counter < length t.backends)
        × (length t.backends ≡ length s.backends)
        × ((c : Backend) → is_found (find_index c t.backends) ≡ is_found (find_index c s.backends))
        × (is_found (find_index b t.backends) ≡ true)
  weighted-share s lt =
      let (e, g) = get_elem?_in_range s.backends s.counter lt in
      let (k, c, served, in_range) = select-in_range s e lt g in
      let new : WeightWrapper = record e { current = k } in
      let same = length-set s.backends s.counter new in
      let (i, found) =
        find_index-at (set s.backends s.counter new) s.counter new
          (get_elem?-set s.backends s.counter e new g) in
      (
        record { backends = set s.backends s.counter new; counter = c },
        e.backend,
        served,
        omega (arith, same, in_range),
        same,
        λ b. ap is_found (find_index-set b s.backends s.counter k e g),
        rw found,
      )

  -- The end of ExcludeBackend, for what is left.
  restarted :
      (left : List WeightWrapper) (c n : ℕ)
      → length left < n
      → (t : Weighted) × ((restart (record { backends = left; counter = c })
            ≡ (t, throws all_excluded))
          ⊎ ((restart (record { backends = left; counter = c }) ≡ (t, ok tt))
              × (t.counter < length t.backends)
              × (0 < length t.backends)
              × (length t.backends < n)))
  unfolding restart
  restarted left c n lt =
      left_over (λ es. record { backends = es; counter = 0 }) (λ (t : Weighted). length t.backends)
        (λ (t : Weighted). t.counter < length t.backends) (λ es. refl) n left (λ pos. pos) lt

  pub weighted-exclude_there :
      (b : Backend) (s : Weighted)
      → s.counter < length s.backends
      → is_found (find_index b s.backends) ≡ true
      → (t : Weighted) × ((exclude_backend b s ≡ (t, throws all_excluded))
          ⊎ ((exclude_backend b s ≡ (t, ok tt))
              × (t.counter < length t.backends)
              × (0 < length t.backends)
              × (length t.backends < length s.backends)))
  unfolding exclude_backend
  weighted-exclude_there b s lt h = elim (Option-cases (find_index b s.backends)) [
    | inl e ↦ absurd (let no : false ≡ true = rw e at h in cc)
    | inr (i, found) ↦
        let (e, g) = get_elem?_in_range s.backends s.counter lt in
        let idle : WeightWrapper = record e { current = 0 } in
        let reset : List WeightWrapper = set s.backends s.counter idle in
        elim (Bool-cases (i == s.counter)) [
          | inl own ↦
              rw (found, exclude_backend)
                (rw (own, reset_current)
                  (restarted (erase_at s.backends i) s.counter (length s.backends)
                    (length-erase_at-found b i s.backends found)))
          | inr other ↦
              rw (found, exclude_backend)
                (rw (other, g, reset_current)
                  (restarted (erase_at reset i) s.counter (length s.backends) (
                    omega (
                      arith,
                      length-set s.backends s.counter idle,
                      length-erase_at-found b i reset
                          (find_index-set b s.backends s.counter 0 e g ∙ found),
                    ))))
        ]
  ]

  pub weighted-exclude_absent :
      (b : Backend) (s : Weighted)
      → 0 < length s.backends
      → is_found (find_index b s.backends) ≡ false
      → exclude_backend b s ≡ (record s { counter = 0 }, ok tt)
  weighted-exclude_absent b s pos h = elim (Option-cases (find_index b s.backends)) [
    | inl e ↦
        exclude_absent b s e
        ∙ ap (λ (o : Outcome (Unit {0})). (record s { counter = 0 }, o))
            (check_left-kept s.backends pos)
    | inr (i, e) ↦ absurd (let no : true ≡ false = rw e at h in cc)
  ]

  -- WeightedRoundRobinSelector keeps it.
  abbrev pub weighted-Shares : Shares weighted_round_robin_class
  weighted-Shares = record {
    size = λ s. length s.backends;
    Fit = λ s. s.counter < length s.backends;
    stands = λ b s. is_found (find_index b s.backends);
    select = λ client s lt pos. weighted-share s lt;
    exclude = λ b s lt h. weighted-exclude_there b s lt h;
    exclude_absent = λ b s lt pos h.
        (record s { counter = 0 }, weighted-exclude_absent b s pos h, pos, refl, λ c. refl);
  }
