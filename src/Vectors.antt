-- ===== src/Vectors.antt =====
-- The operations on `std::vector<Backend>` that the selectors share.
pub mod Removal
pub mod Counter
use lb.Common.{
  ℕ, ◌+◌, ◌%◌, size_mod, Bool, true, false, List, [], ◌∷◌, Outcome, ok, throws, all_excluded,
  if◌then◌else◌,
}
use lb.Platform.{Asio}
use lb.Backend.{Backend, backend_eq}

-- (counter + 1) % backends_.size(), in std::size_t
unfoldable pub next_counter : ℕ → ℕ → ℕ
next_counter counter size = (counter + 1) % size_mod % size

-- empty()
unfoldable pub is_empty {ℓ} : {A : Type ℓ} → List A → Bool
is_empty [] = true
is_empty (x ∷ xs) = false

-- How an `ExcludeBackend` ends, given what is left.
unfoldable pub check_left {ℓ} : {A : Type ℓ} → List A → Outcome (Unit {0})
unfolding is_empty
check_left left = if is_empty left then throws all_excluded else ok tt

module _ ⦃asio : Asio⦄ where
  -- backends_.erase(std::remove(backends_.begin(), backends_.end(), backend), backends_.end())
  unfoldable pub remove_all : Backend → List Backend → List Backend
  remove_all b [] = []
  remove_all b (x ∷ xs) = let rest = remove_all b xs in if backend_eq x b then rest else x ∷ rest
