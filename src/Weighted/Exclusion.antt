-- ===== src/Weighted/Exclusion.antt =====
-- What ExcludeBackend of the weighted selector leaves.
use mathlib.Core.List.{map}
use lb.Common.{
  ℕ, zero, suc, ◌+◌, ◌<◌, ◌≤◌, ◌≡◌, refl, sym, ap, ap₂, ◌∙◌, inl, inr, List, [], ◌∷◌, some, none,
  ok, Outcome, replicate, ◌++◌, arith, length, get_elem?, set, erase_at, ◌==◌, Bool-cases,
  get_elem?_in_range, size_mod, repeat,
}
use lb.Platform.{Asio}
use lb.Backend.{Backend}
use lb.Vectors.{check_left}
use lb.Weighted.{
  WeightWrapper, Weighted, select_backend, find_index, reset_current, exclude_backend,
}
use lb.Weighted.Schedule.{AllIdle, WeightsFit, quota, quotas, round, round_lem}
use lb.Weighted.Invariant.{IsValid, IdleBut}

module _ ⦃asio : Asio⦄ where
  -- An entry at the beginning of its turn.
  abbrev pub idle : WeightWrapper → WeightWrapper
  idle e = record e { current = 0 }

  idle_already : (e : WeightWrapper) → e.current ≡ 0 → idle e ≡ e
  idle_already e h = ap (λ (k : ℕ). record e { current = k }) (sym h)

  map-idle : (es : List WeightWrapper) → AllIdle es → map idle es ≡ es
  map-idle [] h = refl
  map-idle (e ∷ es) h = ap₂ ◌∷◌ (idle_already e h.0) (map-idle es h.1)

  pub AllIdle-map : (es : List WeightWrapper) → AllIdle (map idle es)
  AllIdle-map [] = tt
  AllIdle-map (e ∷ es) = (refl, AllIdle-map es)

  -- With the entry whose turn it is erased, nothing is left of the turn.
  erase_turn :
      (i : ℕ) (es : List WeightWrapper) → IdleBut i es → erase_at es i ≡ map idle (erase_at es i)
  erase_turn i [] h = refl
  erase_turn zero (e ∷ es) h = sym (map-idle es h.1)
  erase_turn (suc i) (e ∷ es) h = ap₂ ◌∷◌ (sym (idle_already e h.0)) (erase_turn i es h.1)

  -- Nor with its turn ended.
  end_turn :
      (c : ℕ) (es : List WeightWrapper) (e : WeightWrapper)
      → IdleBut c es
      → get_elem? es c ≡ some e
      → set es c (idle e) ≡ map idle es
  end_turn c [] e h g = refl
  end_turn zero (x ∷ es) e h g =
      let same : x ≡ e = cc in ap₂ ◌∷◌ (ap idle (sym same)) (sym (map-idle es h.1))
  end_turn (suc c) (x ∷ es) e h g = ap₂ ◌∷◌ (sym (idle_already x h.0)) (end_turn c es e h.1 g)

  map-erase_at :
      (es : List WeightWrapper) (i : ℕ) → erase_at (map idle es) i ≡ map idle (erase_at es i)
  map-erase_at [] i = refl
  map-erase_at (e ∷ es) zero = refl
  map-erase_at (e ∷ es) (suc i) = ap (idle e ∷◌) (map-erase_at es i)

  -- A new round over what is left.
  abbrev started : List WeightWrapper → Weighted × Outcome (Unit {0})
  started es = (record { backends = es; counter = 0 }, check_left es)

  -- ExcludeBackend of a backend that is there, in a valid state, erases the first entry that has
  -- it, ends the turn that was under way, starts a new round, and throws if nothing is left.
  pub exclude_present :
      (b : Backend) (i : ℕ) (s : Weighted)
      → IsValid s
      → find_index b s.backends ≡ some i
      → exclude_backend b s ≡ started (map idle (erase_at s.backends i))
  unfolding exclude_backend
  exclude_present b i s v found =
      let (e, g) = get_elem?_in_range s.backends s.counter v.in_range in
      elim (Bool-cases (i == s.counter)) [
        | inl own ↦
            let same : s.counter ≡ i = ground arith in
            rw (found, exclude_backend)
              (rw (own, reset_current)
                (ap started (erase_turn i s.backends (rw same at v.one_turn))))
        | inr other ↦
            rw (found, exclude_backend)
              (rw (other, reset_current)
                (rw (g, reset_current)
                  (ap started (
                    ap (λ es. erase_at es i) (end_turn s.counter s.backends e v.one_turn g)
                    ∙ map-erase_at s.backends i))))
      ]

  -- ExcludeBackend of a backend that is not there starts again at the first entry and ends no turn.
  pub exclude_absent :
      (b : Backend) (s : Weighted)
      → find_index b s.backends ≡ none
      → exclude_backend b s ≡ (record s { counter = 0 }, check_left s.backends)
  unfolding exclude_backend
  exclude_absent b s absent = rw (absent, exclude_backend)

  -- The weights of what is left make up the next round.
  round-idle : (es : List WeightWrapper) → round (map idle es) ≡ round es
  round-idle [] = refl
  round-idle (e ∷ es) = ap (replicate (quota e) e.backend ++◌) (round-idle es)

  quotas-idle : (es : List WeightWrapper) → quotas (map idle es) ≡ quotas es
  quotas-idle [] = refl
  quotas-idle (e ∷ es) = ap (quota e +◌) (quotas-idle es)

  WeightsFit-map : (es : List WeightWrapper) → WeightsFit es → WeightsFit (map idle es)
  WeightsFit-map [] h = tt
  WeightsFit-map (e ∷ es) h = (h.0, WeightsFit-map es h.1)

  WeightsFit-erase_at :
      (es : List WeightWrapper) (i : ℕ) → WeightsFit es → WeightsFit (erase_at es i)
  WeightsFit-erase_at [] i h = tt
  WeightsFit-erase_at (e ∷ es) zero h = h.1
  WeightsFit-erase_at (e ∷ es) (suc i) h = (h.0, WeightsFit-erase_at es i h.1)

  pub length-map-idle : (es : List WeightWrapper) → length (map idle es) ≡ length es
  length-map-idle [] = refl
  length-map-idle (e ∷ es) = ap suc (length-map-idle es)

  length-erase_at-le : (es : List WeightWrapper) (i : ℕ) → length (erase_at es i) ≤ length es
  length-erase_at-le [] i = omega arith
  length-erase_at-le (e ∷ es) zero = omega arith
  length-erase_at-le (e ∷ es) (suc i) = omega (arith, length-erase_at-le es i)

  -- After ExcludeBackend of a backend that is there, in a valid state in the middle of whatever
  -- turn, with weights and size that fit in std::size_t, the next calls of SelectBackend are
  -- exactly a round over the entries that are left: each as often in a row as its weight says (once
  -- for the weight 0).
  pub round_after_exclusion :
      (b : Backend) (i : ℕ) (s : Weighted)
      → IsValid s
      → WeightsFit s.backends
      → length s.backends < size_mod
      → find_index b s.backends ≡ some i
      → let left = erase_at s.backends i in
        let t = (exclude_backend b s).0 in
        repeat (quotas left) select_backend t ≡ (t, ok (round left))
  round_after_exclusion b i s v weights fits found =
      let es : List WeightWrapper = map idle (erase_at s.backends i) in
      let t : Weighted = record { backends = es; counter = 0 } in
      let next =
        round_lem t refl (AllIdle-map (erase_at s.backends i))
          (WeightsFit-map (erase_at s.backends i) (WeightsFit-erase_at s.backends i weights))
          (omega
            (arith, length-map-idle (erase_at s.backends i), length-erase_at-le s.backends i)) in
      rw (exclude_present b i s v found)
        (rw (quotas-idle (erase_at s.backends i), round-idle (erase_at s.backends i)) at next)

  -- In the middle of a turn that is not the first entry's, the exclusion of a backend that is not
  -- there leaves a state that is not valid: the entry that was served keeps the selections that it
  -- has counted.
  pub exclude_absent_stale :
      (b : Backend) (s : Weighted) (e : WeightWrapper)
      → find_index b s.backends ≡ none
      → 0 < s.counter
      → get_elem? s.backends s.counter ≡ some e
      → 0 < e.current
      → ¬ IsValid (exclude_backend b s).0
  exclude_absent_stale b s e absent c_pos at_c k_pos v =
      stale s.counter s.backends c_pos at_c (rw (exclude_absent b s absent) at v.one_turn)
    where
      idle_at :
          (c : ℕ) (es : List WeightWrapper) → AllIdle es → get_elem? es c ≡ some e → e.current ≡ 0
      idle_at c [] h g = cc
      idle_at zero (x ∷ es) h g = let same : x ≡ e = cc in rw (← same) h.0
      idle_at (suc c) (x ∷ es) h g = idle_at c es h.1 g

      stale : (c : ℕ) (es : List WeightWrapper) → 0 < c → get_elem? es c ≡ some e → IdleBut 0 es → ⊥
      stale zero es p g h = omega arith
      stale (suc c) [] p g h = cc
      stale (suc c) (x ∷ es) p g h = let z = idle_at c es h.1 g in omega arith
