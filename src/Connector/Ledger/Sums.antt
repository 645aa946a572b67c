-- ===== src/Connector/Ledger/Sums.antt =====
-- What the clients of src/lb/tcp/connector.cpp hold of a backend, and altogether.
use lb.Common.{
  ℕ, zero, suc, ◌+◌, ◌≤◌, String, ◌≡◌, List, [], ◌∷◌, ◌++◌, some, arith, get_elem?, set, str_eq,
  if◌then◌else◌, Bool-cases, inl, inr,
}
use lb.Platform.{Asio}
use lb.Backend.{Backend, to_string}

module _ ⦃asio : Asio⦄ where
  -- What a client holds of the backend of a name.
  abbrev pub own : String → Backend × ℕ → ℕ
  own name (b, k) = if str_eq (to_string b) name then k else 0

  abbrev pub held_by : String → List (Backend × ℕ) → ℕ
  held_by name [] = 0
  held_by name (c ∷ cs) = own name c + held_by name cs

  abbrev pub all_held : List (Backend × ℕ) → ℕ
  all_held [] = 0
  all_held (c ∷ cs) = c.1 + all_held cs

  own-le : (name : String) (c : Backend × ℕ) → own name c ≤ c.1
  own-le name (b, k) = elim (Bool-cases (str_eq (to_string b) name)) [
    | inl same ↦ rw same (omega arith)
    | inr differ ↦ rw differ (omega arith)
  ]

  pub held_by-le : (name : String) (cs : List (Backend × ℕ)) → held_by name cs ≤ all_held cs
  held_by-le name [] = omega arith
  held_by-le name (c ∷ cs) = omega (arith, own-le name c, held_by-le name cs)

  pub held_by-append :
      (name : String) (cs ds : List (Backend × ℕ))
      → held_by name (cs ++ ds) ≡ held_by name cs + held_by name ds
  held_by-append name [] ds = omega arith
  held_by-append name (c ∷ cs) ds = omega (arith, held_by-append name cs ds)

  pub all_held-append :
      (cs ds : List (Backend × ℕ)) → all_held (cs ++ ds) ≡ all_held cs + all_held ds
  all_held-append [] ds = omega arith
  all_held-append (c ∷ cs) ds = omega (arith, all_held-append cs ds)

  -- What one client comes to hold, all hold.
  pub held_by-set :
      (name : String) (cs : List (Backend × ℕ)) (j : ℕ) (c d : Backend × ℕ)
      → get_elem? cs j ≡ some c
      → held_by name (set cs j d) + own name c ≡ held_by name cs + own name d
  held_by-set name [] j c d e = cc
  held_by-set name (x ∷ cs) zero c d e = let same : x ≡ c = cc in rw same (omega arith)
  held_by-set name (x ∷ cs) (suc j) c d e = omega (arith, held_by-set name cs j c d e)

  pub all_held-set :
      (cs : List (Backend × ℕ)) (j : ℕ) (c d : Backend × ℕ)
      → get_elem? cs j ≡ some c
      → all_held (set cs j d) + c.1 ≡ all_held cs + d.1
  all_held-set [] j c d e = cc
  all_held-set (x ∷ cs) zero c d e = let same : x ≡ c = cc in rw same (omega arith)
  all_held-set (x ∷ cs) (suc j) c d e = omega (arith, all_held-set cs j c d e)
