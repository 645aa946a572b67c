-- ===== src/Vectors/Counter.antt =====
-- The arithmetic of an index that goes round a vector.
use native.Mathlib.Nat.{mod-eq_of_lt, mod-lt, mod_self}
use lb.Common.{ℕ, zero, suc, ◌+◌, ◌-◌, ◌%◌, ◌<◌, ◌≡◌, refl, sym, ◌∙◌, arith, size_mod}
use lb.Vectors.{next_counter}

-- The sum neither wraps nor, short of the end, meets the division.
pub next_counter_within : (c n : ℕ) → suc c < n → n < size_mod → next_counter c n ≡ suc c
unfolding next_counter
next_counter_within c n h k =
    rw (mod-eq_of_lt (let e : c + 1 < size_mod = omega arith in e))
      (rw (mod-eq_of_lt (let e : c + 1 < n = omega arith in e)) (omega arith))

pub next_counter_end : (c n : ℕ) → suc c ≡ n → n < size_mod → next_counter c n ≡ 0
unfolding next_counter
next_counter_end c n h k =
    rw (mod-eq_of_lt (let e : c + 1 < size_mod = omega arith in e))
      (rw (let e : c + 1 ≡ n = omega arith in e) (mod_self n))

-- What the next call computes from the counter, it computes from one in range too.
pub counter_in_range :
    (c n : ℕ)
    → 0 < n
    → suc c < size_mod
    → n < size_mod
    → (d : ℕ) × (d < n) × (next_counter c n ≡ next_counter d n)
counter_in_range c n pos h fits = split ((c + 1) % n) (mod-lt (c + 1) pos) refl
  where
    next : next_counter c n ≡ (c + 1) % n
    next = unfold next_counter in rw (mod-eq_of_lt (let e : c + 1 < size_mod = omega arith in e))

    split :
        (m : ℕ)
        → m < n
        → (c + 1) % n ≡ m
        → (d : ℕ) × (d < n) × (next_counter c n ≡ next_counter d n)
    split zero m_in e =
        let last : suc (n - 1) ≡ n = omega arith in
        (n - 1, omega arith, next ∙ e ∙ sym (next_counter_end (n - 1) n last fits))
    split (suc d) m_in e = (d, omega arith, next ∙ e ∙ sym (next_counter_within d n m_in fits))

pub next_counter-lt : (c n : ℕ) → 0 < n → next_counter c n < n
unfolding next_counter
next_counter-lt c n h = mod-lt ((c + 1) % size_mod) h
