-- ===== src/Connector/Clients/Totals.antt =====
-- What the clients of one selector add up to, for the handlers of src/lb/tcp/connector.cpp.
use native.Mathlib.Nat.{suc-mul}
use lb.Common.{
  ℕ, zero, suc, ◌+◌, ◌*◌, ◌<◌, ◌≤◌, ◌≡◌, Bool, true, false, List, [], ◌∷◌, ◌++◌, some, arith,
  get_elem?, set, length,
}
use lb.Platform.{Asio}
use lb.Backend.{Endpoint}
use lb.Selector.{ISelector}
use lb.Connector.{Progress}
use lb.Connector.Clients.{Clients}
use lb.Connector.Clients.Shared.{Shares, Serves, Below, Sane, left, left-Below, left-le}

module _ ⦃asio : Asio⦄ {i : ISelector} (law : Shares i) where
  -- No client is at a call without defined behaviour.
  abbrev pub AllSane : List (Endpoint × Progress) → Type 0
  AllSane [] = Unit {0}
  AllSane (c ∷ cs) = Sane law c.1 × AllSane cs

  -- How many completions the clients can cause.
  abbrev pub total : i.State → List (Endpoint × Progress) → ℕ
  total s [] = 0
  total s (c ∷ cs) = left law s c.1 + total s cs

  abbrev pub unless : Bool → ℕ → ℕ
  unless true n = 0
  unless false n = n

  abbrev pub due : Clients i → ℕ
  due s = unless s.stopped (total s.selector s.clients)

  pub record Sound (s : Clients i) : Type 0 where
    pub serves : s.stopped ≡ false → Serves law s.selector
    pub sane : AllSane s.clients

  pub AllSane-append :
      (cs ds : List (Endpoint × Progress)) → AllSane cs → AllSane ds → AllSane (cs ++ ds)
  AllSane-append [] ds a b = b
  AllSane-append (c ∷ cs) ds a b = (a.0, AllSane-append cs ds a.1 b)

  pub AllSane-set :
      (cs : List (Endpoint × Progress)) (j : ℕ) (c : Endpoint × Progress)
      → AllSane cs
      → Sane law c.1
      → AllSane (set cs j c)
  AllSane-set [] j c all sane = tt
  AllSane-set (x ∷ cs) zero c all sane = (sane, all.1)
  AllSane-set (x ∷ cs) (suc j) c all sane = (all.0, AllSane-set cs j c all.1 sane)

  pub total-append :
      (s : i.State) (cs ds : List (Endpoint × Progress))
      → total s (cs ++ ds) ≡ total s cs + total s ds
  total-append s [] ds = omega arith
  total-append s (c ∷ cs) ds = omega (arith, total-append s cs ds)

  pub total-Below :
      (cs : List (Endpoint × Progress)) (t s : i.State) → Below law t s → total t cs ≤ total s cs
  total-Below [] t s below = omega arith
  total-Below (c ∷ cs) t s below =
      omega (arith, left-Below law c.1 t s below, total-Below cs t s below)

  -- A client that has fewer attempts left takes from the total.
  pub total-set :
      (cs : List (Endpoint × Progress)) (j : ℕ) (c d : Endpoint × Progress) (t s : i.State)
      → Below law t s
      → get_elem? cs j ≡ some c
      → left law t d.1 < left law s c.1
      → total t (set cs j d) < total s cs
  total-set [] j c d t s below e lt = cc
  total-set (x ∷ cs) zero c d t s below e lt =
      let same : x ≡ c = cc in rw same (omega (arith, lt, total-Below cs t s below))
  total-set (x ∷ cs) (suc j) c d t s below e lt =
      omega (arith, left-Below law x.1 t s below, total-set cs j c d t s below e lt)

  pub total-le :
      (cs : List (Endpoint × Progress)) (s : i.State)
      → total s cs ≤ length cs * (2 * law.size s + 2)
  total-le [] s = omega arith
  total-le (c ∷ cs) s =
      rw (suc-mul (length cs) (2 * law.size s + 2))
        (omega (arith, left-le law c.1 s, total-le cs s))

  pub total-at :
      (cs : List (Endpoint × Progress)) (j : ℕ) (c : Endpoint × Progress) (s : i.State)
      → get_elem? cs j ≡ some c
      → left law s c.1 ≤ total s cs
  total-at [] j c s e = cc
  total-at (x ∷ cs) zero c s e = let same : x ≡ c = cc in rw same (omega arith)
  total-at (x ∷ cs) (suc j) c s e = omega (arith, total-at cs j c s e)
