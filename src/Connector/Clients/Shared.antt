-- ===== src/Connector/Clients/Shared.antt =====
-- What clients of src/lb/tcp/connector.cpp that share a selector need of it.
use lb.Common.{
  ℕ, ◌+◌, ◌*◌, ◌<◌, ◌≤◌, ◌≡◌, ◌⊎◌, inl, inr, Bool, true, false, Option, none, some, ok, throws,
  all_excluded, arith,
}
use lb.Platform.{Asio}
use lb.Backend.{Backend, Endpoint}
use lb.Selector.{ISelector}
use lb.Connector.{
  Progress, connecting, resolving, connecting_resolved, running, dropped, failed, broken,
}
use lb.Connector.Clients.{is_failed}

abbrev pub is_found : {A : Type 0} → Option A → Bool
is_found none = false
is_found (some a) = true

module _ ⦃asio : Asio⦄ where
  -- What a selector promises to clients that do not know of each other's exclusions, in the states
  -- that are fit and not empty: a selection returns a backend that stands in it, and moves none; the
  -- exclusion of one that stands in it leaves fewer, or throws; and that of one that does not, which
  -- another client has excluded, moves none.
  pub record Shares (i : ISelector) : Type 1 where
    pub size : i.State → ℕ
    pub Fit : i.State → Type 0
    pub stands : Backend → i.State → Bool
    pub select :
        (client : Endpoint) (s : i.State)
        → Fit s
        → 0 < size s
        → (t : i.State) × (b : Backend) × (i.select_backend client s ≡ (t, ok b))
          × Fit t
          × (size t ≡ size s)
          × ((c : Backend) → stands c t ≡ stands c s)
          × (stands b t ≡ true)
    pub exclude :
        (b : Backend) (s : i.State)
        → Fit s
        → stands b s ≡ true
        → (t : i.State) × ((i.exclude_backend b s ≡ (t, throws all_excluded))
            ⊎ ((i.exclude_backend b s ≡ (t, ok tt)) × Fit t × (0 < size t) × (size t < size s)))
    pub exclude_absent :
        (b : Backend) (s : i.State)
        → Fit s
        → 0 < size s
        → stands b s ≡ false
        → (t : i.State) × (i.exclude_backend b s ≡ (t, ok tt))
          × Fit t
          × (size t ≡ size s)
          × ((c : Backend) → stands c t ≡ stands c s)

  module _ {i : ISelector} (law : Shares i) where
    -- The selector can serve a client.
    pub record Serves (s : i.State) : Type 0 where
      pub fit : law.Fit s
      pub pos : 0 < law.size s

    -- A selector that has fewer backends, or the same.
    abbrev pub Below : i.State → i.State → Type 0
    Below t s =
        (law.size t < law.size s)
        ⊎ ((law.size t ≡ law.size s) × ((c : Backend) → law.stands c t ≡ law.stands c s))

    -- How many completions a client can still cause that is to be connected to a backend, by
    -- whether the backend still stands in the selector.
    abbrev pub attempts : Bool → ℕ → ℕ
    attempts true n = 2 * n
    attempts false n = 2 * n + 2

    -- And one at any point.
    abbrev pub left : i.State → Progress → ℕ
    left s (connecting b) = attempts (law.stands b s) (law.size s)
    left s (resolving b) = attempts (law.stands b s) (law.size s)
    left s (connecting_resolved b) = 1
    left s _ = 0

    pub attempts-le : (t : Bool) (n : ℕ) → attempts t n ≤ 2 * n + 2
    attempts-le true n = omega arith
    attempts-le false n = omega arith

    pub attempts-ge : (t : Bool) (n : ℕ) → 2 * n ≤ attempts t n
    attempts-ge true n = omega arith
    attempts-ge false n = omega arith

    pub attempts-Below :
        (b : Backend) (t s : i.State)
        → Below t s
        → attempts (law.stands b t) (law.size t) ≤ attempts (law.stands b s) (law.size s)
    attempts-Below b t s (inl lt) = omega (
      arith,
      lt,
      attempts-le (law.stands b t) (law.size t),
      attempts-ge (law.stands b s) (law.size s),
    )
    attempts-Below b t s (inr (same, stand)) = rw (same, stand b) (omega arith)

    -- With the exclusion of a backend no other client gets more attempts.
    pub left-Below : (p : Progress) (t s : i.State) → Below t s → left t p ≤ left s p
    left-Below (connecting b) t s below = attempts-Below b t s below
    left-Below (resolving b) t s below = attempts-Below b t s below
    left-Below (connecting_resolved b) t s below = omega arith
    left-Below (running b v) t s below = omega arith
    left-Below dropped t s below = omega arith
    left-Below (failed e) t s below = omega arith
    left-Below broken t s below = omega arith

    pub left-le : (p : Progress) (s : i.State) → left s p ≤ 2 * law.size s + 2
    left-le (connecting b) s = attempts-le (law.stands b s) (law.size s)
    left-le (resolving b) s = attempts-le (law.stands b s) (law.size s)
    left-le (connecting_resolved b) s = omega arith
    left-le (running b v) s = omega arith
    left-le dropped s = omega arith
    left-le (failed e) s = omega arith
    left-le broken s = omega arith

    abbrev pub Sane : Progress → Type 0
    Sane broken = ⊥
    Sane _ = Unit {0}

    -- What a handler leaves that has not thrown: a selector that serves, and no more backends than
    -- before; the client has `n` completions left at most.
    pub record Goes (s : i.State) (n : ℕ) (r : i.State × Progress) : Type 0 where
      pub serves : Serves r.0
      pub below : Below r.0 s
      pub sane : Sane r.1
      pub calm : is_failed r.1 ≡ false
      pub fewer : left r.0 r.1 < n
