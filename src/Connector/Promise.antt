-- ===== src/Connector/Promise.antt =====
-- The selectors that keep the promise that the connector needs.
use lb.Common.{
  ℕ, ◌<◌, ◌≡◌, refl, ap, ◌⊎◌, inl, inr, List, [], ◌∷◌, Outcome, ok, throws, arith, length, In,
  In-get_elem?, all_excluded,
}
use lb.Platform.{Asio, StdHash}
use lb.Backend.{Backend, Endpoint}
use lb.Vectors.{remove_all, check_left, is_empty}
use lb.Vectors.Removal.{length-remove_all-lt}
use lb.RoundRobin.{RoundRobin, select_backend, exclude_backend}
use lb.RoundRobin.Exclusion.{select_backend_lem}
use lb.Selector.{round_robin_class, ip_hash_class}
use lb.IpHash
use lb.IpHash.Selection.{select_hashed}
use lb.Connector.Retry.{Shrinks}

-- How an exclusion ends that leaves `xs`.
pub left_over :
    {A S : Type 0} (make : List A → S) (size : S → ℕ) (Fit : S → Type 0)
    → ((xs : List A) → size (make xs) ≡ length xs)
    → (n : ℕ) (xs : List A) → (0 < length xs → Fit (make xs))
    → length xs < n
    → (t : S) × ((◌≡◌ {A = S × Outcome (Unit {0})}
          (make xs, check_left xs)
          (t, throws all_excluded))
        ⊎ ((◌≡◌ {A = S × Outcome (Unit {0})} (make xs, check_left xs) (t, ok tt))
            × Fit t
            × (0 < size t)
            × (size t < n)))
unfolding check_left is_empty
left_over make size Fit sized n [] fit lt = (make [], inl refl)
left_over make size Fit sized n (x ∷ xs) fit lt = (
  make (x ∷ xs),
  inr (refl, fit (omega arith), omega (arith, sized (x ∷ xs)), omega (arith, sized (x ∷ xs))),
)

module _ ⦃asio : Asio⦄ where
  pub round_robin-select :
      (s : RoundRobin)
      → 0 < length s.backends
      → (t : RoundRobin) × (b : Backend) × (select_backend s ≡ (t, ok b))
        × (length t.backends ≡ length s.backends)
        × Unit {0}
        × In b t.backends
  round_robin-select s pos = elim (select_backend_lem s) [
    | inl (none_left, e) ↦
        absurd (let z : length s.backends ≡ 0 = ap length none_left in omega arith)
    | inr (b, c, e, c_in, at_c) ↦
        (record s { counter = c }, b, e, refl, tt, In-get_elem? s.backends c b at_c)
  ]

  pub round_robin-exclude :
      (b : Backend) (s : RoundRobin)
      → In b s.backends
      → (t : RoundRobin) × ((exclude_backend b s ≡ (t, throws all_excluded))
          ⊎ ((exclude_backend b s ≡ (t, ok tt))
              × Unit {0}
              × (0 < length t.backends)
              × (length t.backends < length s.backends)))
  unfolding exclude_backend
  round_robin-exclude b s st =
      left_over (λ bs. record s { backends = bs }) (λ (t : RoundRobin). length t.backends)
        (λ t. Unit {0}) (λ bs. refl) (length s.backends) (remove_all b s.backends) (λ pos. tt)
        (length-remove_all-lt b s.backends st)

  -- RoundRobinSelector keeps the promise.
  abbrev pub round_robin-Shrinks : Shrinks round_robin_class
  round_robin-Shrinks = record {
    size = λ s. length s.backends;
    Fit = λ s. Unit {0};
    Stands = λ b s. In b s.backends;
    select = λ client s fit pos. round_robin-select s pos;
    exclude = λ b s fit st. round_robin-exclude b s st;
  }

module _ ⦃asio : Asio⦄ ⦃std : StdHash⦄ where
  pub ip_hash-select :
      (client : Endpoint) (s : IpHash.IpHash)
      → 0 < length s.backends
      → (t : IpHash.IpHash) × (b : Backend) × (IpHash.select_backend client s ≡ (t, ok b))
        × (length t.backends ≡ length s.backends)
        × Unit {0}
        × In b t.backends
  ip_hash-select client s pos = elim (select_hashed client s) [
    | inl (none_left, e) ↦
        absurd (let z : length s.backends ≡ 0 = ap length none_left in omega arith)
    | inr (b, e, g, there) ↦ (s, b, e, refl, tt, there)
  ]

  pub ip_hash-exclude :
      (b : Backend) (s : IpHash.IpHash)
      → In b s.backends
      → (t : IpHash.IpHash) × ((IpHash.exclude_backend b s ≡ (t, throws all_excluded))
          ⊎ ((IpHash.exclude_backend b s ≡ (t, ok tt))
              × Unit {0}
              × (0 < length t.backends)
              × (length t.backends < length s.backends)))
  unfolding IpHash.exclude_backend
  ip_hash-exclude b s st =
      left_over (λ bs. record { backends = bs }) (λ (t : IpHash.IpHash). length t.backends)
        (λ t. Unit {0}) (λ bs. refl) (length s.backends) (remove_all b s.backends) (λ pos. tt)
        (length-remove_all-lt b s.backends st)

  -- IpHashSelector keeps it.
  abbrev pub ip_hash-Shrinks : Shrinks ip_hash_class
  ip_hash-Shrinks = record {
    size = λ s. length s.backends;
    Fit = λ s. Unit {0};
    Stands = λ b s. In b s.backends;
    select = λ client s fit pos. ip_hash-select client s pos;
    exclude = λ b s fit st. ip_hash-exclude b s st;
  }
