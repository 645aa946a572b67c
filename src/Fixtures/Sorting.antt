-- ===== src/Fixtures/Sorting.antt =====
-- Insertion sort: a stand-in for std::sort in the tests.
use mathlib.Core.List.Perm
use lb.Common.{
  ℕ, Bool, ◌≡◌, ◌⊎◌, inl, inr, List, [], ◌∷◌, Perm, In, arith, ltb, ltb→lt, if◌then◌else◌,
  Bool-cases,
}
use lb.Platform.{StdSort, Descending}

module _ {A : Type 0} (less : A → A → Bool) where
  abbrev pub insert : A → List A → List A
  insert x [] = x ∷ []
  insert x (y ∷ ys) = let rest = insert x ys in if less y x then y ∷ rest else x ∷ y ∷ ys

  abbrev pub sorted : List A → List A
  sorted [] = []
  sorted (x ∷ xs) = insert x (sorted xs)

  pub insert-Perm : (x : A) (ys : List A) → Perm (insert x ys) (x ∷ ys)
  insert-Perm x [] = Perm.refl _
  insert-Perm x (y ∷ ys) = elim (Bool-cases (less y x)) [
    | inl e ↦ rw e (Perm.trans (Perm.cons y (insert-Perm x ys)) (Perm.swap x y ys))
    | inr e ↦ rw e (Perm.refl _)
  ]

  pub sorted-Perm : (xs : List A) → Perm (sorted xs) xs
  sorted-Perm [] = Perm.refl _
  sorted-Perm (x ∷ xs) = Perm.trans (insert-Perm x (sorted xs)) (Perm.cons x (sorted-Perm xs))

  pub In-insert : (x y : A) (ys : List A) → In y (insert x ys) → (y ≡ x) ⊎ In y ys
  In-insert x y [] m = m
  In-insert x y (z ∷ zs) m = elim (Bool-cases (less z x)) [
    | inl e ↦
        let m' : In y (z ∷ insert x zs) = rw e at m in
        elim m' [
          | inl same ↦ inr (inl same)
          | inr later ↦ elim (In-insert x y zs later) [
            | inl same ↦ inl same
            | inr old ↦ inr (inr old)
          ]
        ]
    | inr e ↦ rw e at m
  ]

module _ {A : Type 0} (key : A → ℕ) where
  abbrev pub larger_first : A → A → Bool
  larger_first a b = ltb (key b) (key a)

  pub insert-Descending :
      (x : A) (ys : List A) → Descending key ys → Descending key (insert larger_first x ys)
  insert-Descending x [] d = (λ y m. absurd m, tt)
  insert-Descending x (z ∷ zs) d = elim (Bool-cases (ltb (key x) (key z))) [
    | inl e ↦ rw e (
      λ y m. (elim (In-insert larger_first x y zs m) [
        | inl same ↦ rw same (let lt = ltb→lt (key x) (key z) e in omega arith)
        | inr old ↦ d.0 y old
      ]),
      insert-Descending x zs d.1,
    )
    | inr e ↦ rw e (
      λ y m. (elim m [
        | inl same ↦ rw same (ground arith)
        | inr old ↦ let le = d.0 y old in ground arith
      ]),
      d,
    )
  ]

  pub sorted-Descending : (xs : List A) → Descending key (sorted larger_first xs)
  sorted-Descending [] = tt
  sorted-Descending (x ∷ xs) = insert-Descending x (sorted larger_first xs) (sorted-Descending xs)

instance abbrev pub insertion_sort : StdSort
insertion_sort = record { sort = sorted; sort_perm = sorted-Perm; sort_by_key = sorted-Descending }
