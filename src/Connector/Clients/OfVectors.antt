-- ===== src/Connector/Clients/OfVectors.antt =====
-- RoundRobinSelector and IpHashSelector of src/lb/tcp/selectors.cpp, shared by clients.
use lb.Common.{
  ◌<◌, ◌≡◌, refl, ap, ◌⊎◌, inl, inr, Bool, true, false, ◌||◌, List, [], ◌∷◌, Outcome, ok, throws,
  arith, length, In, all_excluded, Bool-cases,
}
use lb.Platform.{Asio, StdHash}
use lb.Backend.{Backend, Endpoint, backend_eq}
use lb.Backend.Equality.{backend_eq_refl}
use lb.Vectors.{remove_all, check_left, is_empty}
use lb.Vectors.Removal.{length-remove_all-le}
use lb.RoundRobin.{RoundRobin, select_backend, exclude_backend}
use lb.RoundRobin.Exclusion.{backends-select}
use lb.Selector.{round_robin_class, ip_hash_class}
use lb.IpHash
use lb.Connector.Promise.{left_over, round_robin-select}
use lb.IpHash.Selection.{select_hashed}
use lb.Connector.Clients.Shared.{Shares}

-- How an exclusion ends that leaves a vector as it is.
pub check_left-kept : {A : Type 0} (xs : List A) → 0 < length xs → check_left xs ≡ ok tt
unfolding check_left is_empty
check_left-kept [] pos = absurd (omega arith)
check_left-kept (x ∷ xs) pos = refl

module _ ⦃asio : Asio⦄ where
  -- Some backend of the vector is equal to `b`, by operator==.
  abbrev pub occurs : Backend → List Backend → Bool
  occurs b [] = false
  occurs b (x ∷ xs) = backend_eq x b || occurs b xs

  occurs-In : (b : Backend) (xs : List Backend) → In b xs → occurs b xs ≡ true
  occurs-In b [] m = absurd m
  occurs-In b (x ∷ xs) (inl e) = rw (← e, backend_eq_refl b)
  occurs-In b (x ∷ xs) (inr m) = let later = occurs-In b xs m in ground arith

  remove_all-occurs :
      (b : Backend) (xs : List Backend) → occurs b xs ≡ true → length (remove_all b xs) < length xs
  unfolding remove_all
  remove_all-occurs b [] h = cc
  remove_all-occurs b (x ∷ xs) h = elim (Bool-cases (backend_eq x b)) [
    | inl e ↦ rw e (omega (arith, length-remove_all-le b xs))
    | inr e ↦ rw e (omega (arith, remove_all-occurs b xs (rw e at h)))
  ]

  remove_all-absent : (b : Backend) (xs : List Backend) → occurs b xs ≡ false → remove_all b xs ≡ xs
  unfolding remove_all
  remove_all-absent b [] h = refl
  remove_all-absent b (x ∷ xs) h = elim (Bool-cases (backend_eq x b)) [
    | inl e ↦ absurd (let no : true ≡ false = rw e at h in cc)
    | inr e ↦ rw e (ap (x ∷◌) (remove_all-absent b xs (rw e at h)))
  ]

  -- How the exclusion of a backend that is not there ends.
  exclude_absent-kept :
      {S : Type 0} (make : List Backend → S) (b : Backend) (xs : List Backend)
      → 0 < length xs
      → occurs b xs ≡ false
      → ◌≡◌ {A = S × Outcome (Unit {0})}
          (make (remove_all b xs), check_left (remove_all b xs))
          (make xs, ok tt)
  exclude_absent-kept make b xs pos h =
      rw (remove_all-absent b xs h) (ap (λ o. (make xs, o)) (check_left-kept xs pos))

  pub round_robin-share :
      (s : RoundRobin)
      → 0 < length s.backends
      → (t : RoundRobin) × (b : Backend) × (select_backend s ≡ (t, ok b))
        × Unit {0}
        × (length t.backends ≡ length s.backends)
        × ((c : Backend) → occurs c t.backends ≡ occurs c s.backends)
        × (occurs b t.backends ≡ true)
  round_robin-share s pos =
      let (t, b, e, same, fit, there) = round_robin-select s pos in
      let kept : t.backends ≡ s.backends = rw e at (backends-select s) in
      (t, b, e, tt, same, λ c. ap (occurs c) kept, occurs-In b t.backends there)

  pub round_robin-exclude_there :
      (b : Backend) (s : RoundRobin)
      → occurs b s.backends ≡ true
      → (t : RoundRobin) × ((exclude_backend b s ≡ (t, throws all_excluded))
          ⊎ ((exclude_backend b s ≡ (t, ok tt))
              × Unit {0}
              × (0 < length t.backends)
              × (length t.backends < length s.backends)))
  unfolding exclude_backend
  round_robin-exclude_there b s h =
      left_over (λ bs. record s { backends = bs }) (λ (t : RoundRobin). length t.backends)
        (λ t. Unit {0}) (λ bs. refl) (length s.backends) (remove_all b s.backends) (λ pos. tt)
        (remove_all-occurs b s.backends h)

  pub round_robin-exclude_absent :
      (b : Backend) (s : RoundRobin)
      → 0 < length s.backends
      → occurs b s.backends ≡ false
      → exclude_backend b s ≡ (s, ok tt)
  unfolding exclude_backend
  round_robin-exclude_absent b s pos h =
      exclude_absent-kept (λ bs. record s { backends = bs }) b s.backends pos h

  -- RoundRobinSelector keeps it.
  abbrev pub round_robin-Shares : Shares round_robin_class
  round_robin-Shares = record {
    size = λ s. length s.backends;
    Fit = λ s. Unit {0};
    stands = λ b s. occurs b s.backends;
    select = λ client s fit pos. round_robin-share s pos;
    exclude = λ b s fit h. round_robin-exclude_there b s h;
    exclude_absent =
        λ b s fit pos h. (s, round_robin-exclude_absent b s pos h, tt, refl, λ c. refl);
  }

module _ ⦃asio : Asio⦄ ⦃std : StdHash⦄ where
  pub ip_hash-share :
      (client : Endpoint) (s : IpHash.IpHash)
      → 0 < length s.backends
      → (t : IpHash.IpHash) × (b : Backend) × (IpHash.select_backend client s ≡ (t, ok b))
        × Unit {0}
        × (length t.backends ≡ length s.backends)
        × ((c : Backend) → occurs c t.backends ≡ occurs c s.backends)
        × (occurs b t.backends ≡ true)
  ip_hash-share client s pos = elim (select_hashed client s) [
    | inl (none_left, e) ↦
        absurd (let z : length s.backends ≡ 0 = ap length none_left in omega arith)
    | inr (b, e, g, there) ↦ (s, b, e, tt, refl, λ c. refl, occurs-In b s.backends there)
  ]

  pub ip_hash-exclude_there :
      (b : Backend) (s : IpHash.IpHash)
      → occurs b s.backends ≡ true
      → (t : IpHash.IpHash) × ((IpHash.exclude_backend b s ≡ (t, throws all_excluded))
          ⊎ ((IpHash.exclude_backend b s ≡ (t, ok tt))
              × Unit {0}
              × (0 < length t.backends)
              × (length t.backends < length s.backends)))
  unfolding IpHash.exclude_backend
  ip_hash-exclude_there b s h =
      left_over (λ bs. record { backends = bs }) (λ (t : IpHash.IpHash). length t.backends)
        (λ t. Unit {0}) (λ bs. refl) (length s.backends) (remove_all b s.backends) (λ pos. tt)
        (remove_all-occurs b s.backends h)

  pub ip_hash-exclude_absent :
      (b : Backend) (s : IpHash.IpHash)
      → 0 < length s.backends
      → occurs b s.backends ≡ false
      → IpHash.exclude_backend b s ≡ (s, ok tt)
  unfolding IpHash.exclude_backend
  ip_hash-exclude_absent b s pos h =
      exclude_absent-kept (λ bs. record { backends = bs }) b s.backends pos h

  -- IpHashSelector keeps it.
  abbrev pub ip_hash-Shares : Shares ip_hash_class
  ip_hash-Shares = record {
    size = λ s. length s.backends;
    Fit = λ s. Unit {0};
    stands = λ b s. occurs b s.backends;
    select = λ client s fit pos. ip_hash-share client s pos;
    exclude = λ b s fit h. ip_hash-exclude_there b s h;
    exclude_absent = λ b s fit pos h. (s, ip_hash-exclude_absent b s pos h, tt, refl, λ c. refl);
  }
