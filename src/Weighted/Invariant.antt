-- ===== src/Weighted/Invariant.antt =====
-- The state that the calls of the weighted selector keep, and what an exclusion leaves.
use lb.Common.{
  ℕ, zero, suc, ◌+◌, ◌%◌, ◌<◌, ◌≡◌, refl, inl, inr, List, [], ◌∷◌, some, ok, arith, length,
  get_elem?, set, erase_at, length-set, size_mod, ltb, Bool-cases, ltb→lt, get_elem?_in_range,
}
use lb.Platform.{Asio}
use lb.Vectors.Counter.{next_counter-lt}
use lb.Weighted.{WeightWrapper, Weighted, advance_entry, advance_counter, select_backend}
use lb.Weighted.Schedule.{AllIdle, quota}

module _ ⦃asio : Asio⦄ where
  -- Only the entry at the index is in the middle of its turn.
  abbrev pub IdleBut : ℕ → List WeightWrapper → Type 0
  IdleBut i [] = Unit {0}
  IdleBut zero (e ∷ es) = (e.current < quota e) × AllIdle es
  IdleBut (suc i) (e ∷ es) = (e.current ≡ 0) × IdleBut i es

  pub record IsValid (s : Weighted) : Type 0 where
    pub in_range : s.counter < length s.backends
    pub one_turn : IdleBut s.counter s.backends

  IdleBut-AllIdle : (i : ℕ) (es : List WeightWrapper) → AllIdle es → IdleBut i es
  IdleBut-AllIdle i [] h = tt
  IdleBut-AllIdle zero (e ∷ es) h = (omega arith, h.1)
  IdleBut-AllIdle (suc i) (e ∷ es) h = (h.0, IdleBut-AllIdle i es h.1)

  -- The turn goes on at the index.
  IdleBut-set :
      (i k : ℕ) (es : List WeightWrapper) (e : WeightWrapper)
      → IdleBut i es
      → get_elem? es i ≡ some e
      → k < quota e
      → IdleBut i (set es i (record e { current = k }))
  IdleBut-set i k [] e h g lt = tt
  IdleBut-set zero k (x ∷ es) e h g lt = (lt, h.1)
  IdleBut-set (suc i) k (x ∷ es) e h g lt = (h.0, IdleBut-set i k es e h.1 g lt)

  -- The turn at the index ends.
  AllIdle-set :
      (i : ℕ) (es : List WeightWrapper) (e : WeightWrapper)
      → IdleBut i es
      → get_elem? es i ≡ some e
      → AllIdle (set es i (record e { current = 0 }))
  AllIdle-set i [] e h g = tt
  AllIdle-set zero (x ∷ es) e h g = (refl, h.1)
  AllIdle-set (suc i) (x ∷ es) e h g = (h.0, AllIdle-set i es e h.1 g)

  -- The erasure of the entry whose turn it is ends the turn.
  AllIdle-erase_at_turn : (i : ℕ) (es : List WeightWrapper) → IdleBut i es → AllIdle (erase_at es i)
  AllIdle-erase_at_turn i [] h = tt
  AllIdle-erase_at_turn zero (x ∷ es) h = h.1
  AllIdle-erase_at_turn (suc i) (x ∷ es) h = (h.0, AllIdle-erase_at_turn i es h.1)

  AllIdle-erase_at : (i : ℕ) (es : List WeightWrapper) → AllIdle es → AllIdle (erase_at es i)
  AllIdle-erase_at i [] h = tt
  AllIdle-erase_at zero (x ∷ es) h = h.1
  AllIdle-erase_at (suc i) (x ∷ es) h = (h.0, AllIdle-erase_at i es h.1)

  advance_entry-IsValid :
      (e : WeightWrapper) (s : Weighted)
      → get_elem? s.backends s.counter ≡ some e
      → IsValid s
      → IsValid (advance_entry e (length s.backends) s)
  unfolding advance_entry
  advance_entry-IsValid e s g v =
      let k : ℕ = (e.current + 1) % size_mod in
      elim (Bool-cases (ltb k e.weight)) [
        | inl on ↦
            rw (on, advance_entry)
              (record {
                in_range = rw length-set v.in_range;
                one_turn =
                    IdleBut-set s.counter k s.backends e v.one_turn g
                      (let below : k < e.weight = ltb→lt k e.weight on in omega arith);
              })
        | inr over ↦
            rw (over, advance_entry)
              (record {
                in_range = rw length-set (
                    next_counter-lt s.counter (length s.backends)
                      (let some_left = v.in_range in omega arith));
                one_turn = IdleBut-AllIdle _ _ (AllIdle-set s.counter s.backends e v.one_turn g);
              })
      ]

  -- In a valid state SelectBackend of the weighted selector returns the backend at the counter, and
  -- the state stays valid: the counter is in range, and only the entry there is in the middle of
  -- its turn.
  pub select_at_counter :
      (s : Weighted)
      → IsValid s
      → (e : WeightWrapper) × (get_elem? s.backends s.counter ≡ some e)
        × ((select_backend s).1 ≡ ok e.backend)
        × IsValid (select_backend s).0
  unfolding select_backend
  select_at_counter s v =
      let (e, g) = get_elem?_in_range s.backends s.counter v.in_range in
      (
        e,
        g,
        rw (g, select_backend) (rw (g, advance_counter)),
        rw (g, select_backend) (rw (g, advance_counter) (advance_entry-IsValid e s g v)),
      )
