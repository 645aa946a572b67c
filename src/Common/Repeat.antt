-- ===== src/Common/Repeat.antt =====
-- The same call, several times in a row.
use native.Mathlib.Nat.{zero-add}
use Prim.Native.Nat.{ℕ, zero, suc, ◌+◌}
use mathlib.Core.Path.{◌≡◌, refl, ap}
use mathlib.Core.List.{List, [], ◌∷◌, ◌++◌}
use native.Mathlib.Omega.{arith}
use lb.Common.Outcomes.{Outcome, ok, throws, undefined, Action, and_then}

module _ {ℓ} {S A : Type ℓ} where
  pub repeat : ℕ → Action S A → Action S (List A)
  repeat zero act s = (s, ok [])
  repeat (suc k) act s =
      and_then (act s) λ a t. and_then (repeat k act t) λ rest u. (u, ok (a ∷ rest))

  pub repeat-zero : (act : Action S A) (s : S) → repeat 0 act s ≡ (s, ok [])
  unfolding repeat
  repeat-zero act s = refl

  -- One call, and the rest from where it leads.
  pub repeat-suc :
      (k : ℕ) (act : Action S A) (s : S) {t u : S} {a : A} {rest : List A}
      → act s ≡ (t, ok a)
      → repeat k act t ≡ (u, ok rest)
      → repeat (suc k) act s ≡ (u, ok (a ∷ rest))
  unfolding repeat
  repeat-suc k act s p q = rw p (rw q)

  rest_returned :
      (q : S × Outcome (List A)) (a : A) {u : S} {xs : List A}
      → and_then q (λ rest u. (u, ok (a ∷ rest))) ≡ (u, ok xs)
      → (rest : List A) × (q ≡ (u, ok rest)) × (xs ≡ a ∷ rest)
  rest_returned (v, ok rest) a h = (rest, cc, cc)
  rest_returned (v, throws e) a h = cc
  rest_returned (v, undefined) a h = cc

  -- What is known of the calls when all of them returned.
  pub repeat-suc_returned :
      (r : S × Outcome A) (k : ℕ) (act : Action S A) {u : S} {xs : List A}
      → and_then r (λ a t. and_then (repeat k act t) λ rest u. (u, ok (a ∷ rest))) ≡ (u, ok xs)
      → (t : S) × (a : A) × (rest : List A) × (r ≡ (t, ok a))
        × (repeat k act t ≡ (u, ok rest))
        × (xs ≡ a ∷ rest)
  repeat-suc_returned (t, ok a) k act h =
      let (rest, e, x) = rest_returned (repeat k act t) a h in (t, a, rest, refl, e, x)
  repeat-suc_returned (t, throws e) k act h = cc
  repeat-suc_returned (t, undefined) k act h = cc

  -- Some calls, and more from where they lead.
  pub repeat-add :
      (j k : ℕ) (act : Action S A) (s : S) {t u : S} {xs ys : List A}
      → repeat j act s ≡ (t, ok xs)
      → repeat k act t ≡ (u, ok ys)
      → repeat (j + k) act s ≡ (u, ok (xs ++ ys))
  unfolding repeat
  repeat-add zero k act s {t} {u} {xs} {ys} p q =
      let same : s ≡ t = ap (λ r. r.0) p in
      let nothing : [] ≡ xs = cc in rw (zero-add, same, ← nothing) q
  repeat-add (suc j) k act s {t} {u} {xs} {ys} p q =
      let (v, a, rest, e, r, x) = repeat-suc_returned (act s) j act p in
      rw (x, let n : suc j + k ≡ suc (j + k) = omega arith in n)
        (repeat-suc (j + k) act s e (repeat-add j k act v r q))

  -- Two states from which the call does the same.
  pub repeat_from :
      (k : ℕ) (act : Action S A) (s t : S)
      → act s ≡ act t
      → repeat (suc k) act s ≡ repeat (suc k) act t
  unfolding repeat
  repeat_from k act s t e = rw e
