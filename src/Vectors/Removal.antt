-- ===== src/Vectors/Removal.antt =====
-- What is left after `remove_all`.
use lb.Common.{
  ◌<◌, ◌≤◌, false, ◌≡◌, refl, ◌↔◌, inl, inr, List, [], ◌∷◌, In, arith, length, throws, all_excluded,
}
use lb.Platform.{Asio}
use lb.Backend.{Backend, backend_eq}
use lb.Backend.Equality.{backend_eq_refl}
use lb.Vectors.{remove_all, check_left}

-- An `ExcludeBackend` throws exactly when nothing is left.
pub check_left_iff {ℓ} :
    {A : Type ℓ} (xs : List A) → (check_left xs ≡ throws all_excluded) ↔ (xs ≡ [])
unfolding check_left
check_left_iff [] = (λ _. refl, λ _. refl)
check_left_iff (x ∷ xs) = (λ e. cc, λ e. cc)

module _ ⦃asio : Asio⦄ where
  pub length-remove_all-le :
      (b : Backend) (xs : List Backend) → length (remove_all b xs) ≤ length xs
  unfolding remove_all
  length-remove_all-le b [] = omega arith
  length-remove_all-le b (x ∷ xs) = ground (arith, length-remove_all-le b xs)

  -- The removal of a backend that is there makes the vector shorter.
  pub length-remove_all-lt :
      (b : Backend) (xs : List Backend) → In b xs → length (remove_all b xs) < length xs
  unfolding remove_all
  length-remove_all-lt b [] m = absurd m
  length-remove_all-lt b (x ∷ xs) (inl e) =
      ground (arith, backend_eq_refl b, length-remove_all-le b xs)
  length-remove_all-lt b (x ∷ xs) (inr m) =
      ground (arith, length-remove_all-lt b xs m, length-remove_all-le b xs)

  -- Exactly the backends that are not equal to the excluded one stay.
  pub In-remove_all :
      (b y : Backend) (xs : List Backend)
      → In y (remove_all b xs) ↔ (In y xs × (backend_eq y b ≡ false))
  unfolding remove_all
  In-remove_all b y [] = (λ h. absurd h, λ h. h.0)
  In-remove_all b y (x ∷ xs) = ground (arith, In-remove_all b y xs)
