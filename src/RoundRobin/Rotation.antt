-- ===== src/RoundRobin/Rotation.antt =====
-- The order in which SelectBackend hands the backends out.
use native.Mathlib.Nat.{add-zero, zero-add}
use mathlib.Core.List.{perm_append_comm}
use lb.Common.{
  ℕ, zero, suc, ◌+◌, ◌-◌, ◌<◌, ◌≡◌, refl, ap, subst, ◌∙◌, List, [], ◌∷◌, ◌++◌, Perm, some, ok,
  arith, length, get_elem?, take, drop, size_mod, repeat_from, get_elem?_in_range, drop-get_elem?,
  take_all, take-append-drop, length-drop, repeat, repeat-zero, repeat-suc, repeat-add,
}
use lb.Platform.{Asio}
use lb.Backend.{Backend}
use lb.Vectors.{next_counter}
use lb.Vectors.Counter.{next_counter_within, next_counter_end, counter_in_range}
use lb.RoundRobin.{RoundRobin, select_backend}

module _ ⦃asio : Asio⦄ where
  abbrev pub at : ℕ → List Backend → RoundRobin
  at c bs = record { counter = c; backends = bs }

  pub select_at :
      (c i : ℕ) (bs : List Backend) (a : Backend)
      → next_counter c (length bs) ≡ i
      → get_elem? bs i ≡ some a
      → select_backend (at c bs) ≡ (at i bs, ok a)
  unfolding select_backend
  select_at c i [] a e g = cc
  select_at c i (x ∷ bs) a e g = rw (e, select_backend) (rw g (ground arith))

  -- Short of the end the calls walk forward.
  walk :
      (k c : ℕ) (bs : List Backend)
      → c + k < length bs
      → length bs < size_mod
      → repeat k select_backend (at c bs) ≡ (at (c + k) bs, ok (take k (drop (suc c) bs)))
  walk zero c bs h fits = rw (add-zero, repeat-zero)
  walk (suc k) c bs h fits =
      let (a, e) = get_elem?_in_range bs (suc c) (omega arith) in
      let first =
        select_at c (suc c) bs a (next_counter_within c (length bs) (omega arith) fits) e in
      let n : c + suc k ≡ suc c + k = omega arith in
      rw (n, drop-get_elem? bs (suc c) a e)
        (repeat-suc k select_backend (at c bs) first (walk k (suc c) bs (omega arith) fits))

  -- From the last backend the next call goes on at the first.
  wrap :
      (c k : ℕ) (bs : List Backend)
      → suc c ≡ length bs
      → k < length bs
      → length bs < size_mod
      → repeat (suc k) select_backend (at c bs) ≡ (at k bs, ok (take (suc k) bs))
  wrap c k [] e h fits = cc
  wrap c k (x ∷ bs) e h fits =
      let first = select_at c 0 (x ∷ bs) x (next_counter_end c (length (x ∷ bs)) e fits) refl in
      let n : 0 + k ≡ k = zero-add k in
      repeat-suc k select_backend (at c (x ∷ bs)) first
        (rw n at (walk k 0 (x ∷ bs) (rw zero-add h) fits))

  -- A selector with the counter in range and a size that fits in std::size_t, called once for each
  -- of its backends, is back in its state and has handed them out in cyclic order from the one
  -- behind the counter.
  pub rotation :
      (s : RoundRobin)
      → s.counter < length s.backends
      → length s.backends < size_mod
      → repeat (length s.backends) select_backend s
        ≡ (s, ok (drop (suc s.counter) s.backends ++ take (suc s.counter) s.backends))
  rotation s h fits =
      let bs : List Backend = s.backends in
      let c : ℕ = s.counter in
      let j : ℕ = length bs - suc c in
      let forward : repeat j select_backend s ≡ (at (c + j) bs, ok (drop (suc c) bs)) =
        walk j c bs (omega arith) fits
        ∙ ap (λ (xs : List Backend). (at (c + j) bs, ok xs))
            (take_all j (drop (suc c) bs) (omega (arith, length-drop (suc c) bs))) in
      let back = wrap (c + j) c bs (omega arith) h fits in
      let n : length bs ≡ j + suc c = omega arith in
      rw n (repeat-add j (suc c) select_backend s forward back)

  same_select :
      (c d : ℕ) (bs : List Backend)
      → 0 < length bs
      → next_counter c (length bs) ≡ next_counter d (length bs)
      → select_backend (at c bs) ≡ select_backend (at d bs)
  unfolding select_backend
  same_select c d [] pos e = absurd (omega arith)
  same_select c d (x ∷ bs) pos e = rw (e, select_backend) (ground arith)

  -- From whatever counter, also one that an exclusion has left out of range, as many calls of
  -- SelectBackend as there are backends return each of them exactly once, where the vector is not
  -- empty and its size and the incremented counter fit in std::size_t.
  pub fair_round :
      (s : RoundRobin)
      → 0 < length s.backends
      → suc s.counter < size_mod
      → length s.backends < size_mod
      → (t : RoundRobin) × (xs : List Backend) × (repeat (length s.backends) select_backend s
          ≡ (t, ok xs))
        × Perm xs s.backends
  fair_round s pos h fits =
      let bs : List Backend = s.backends in
      let (d, d_in, same) = counter_in_range s.counter (length bs) pos h fits in
      let n : length bs ≡ suc (length bs - 1) = omega arith in
      let moved : repeat (length bs) select_backend s
          ≡ repeat (length bs) select_backend (at d bs) =
        rw n (
          repeat_from (length bs - 1) select_backend s (at d bs)
            (same_select s.counter d bs pos same)) in
      (
        at d bs,
        drop (suc d) bs ++ take (suc d) bs,
        moved ∙ rotation (at d bs) d_in fits,
        subst (Perm (drop (suc d) bs ++ take (suc d) bs)) (take-append-drop (suc d) bs)
            (perm_append_comm (drop (suc d) bs) (take (suc d) bs)),
      )
