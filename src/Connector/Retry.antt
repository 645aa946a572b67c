-- ===== src/Connector/Retry.antt =====
-- How the retries of a client end.
use lb.Common.{
  ℕ, suc, ◌*◌, ◌<◌, ◌≤◌, ◌≡◌, ◌⊎◌, inl, inr, List, [], ◌∷◌, Option, none, some, ok, throws, arith,
  length, Bool-cases, all_excluded,
}
use lb.Platform.{Asio}
use lb.Backend.{Backend, Endpoint, of_endpoint, of_url}
use lb.Session.{ErrorCode}
use lb.Selector.{ISelector}
use lb.Connector.{
  Progress, connecting, resolving, connecting_resolved, running, dropped, failed, broken, started,
  make_and_run_session, retried, on_error, is_refused, complete, complete_all,
}

module _ ⦃asio : Asio⦄ where
  -- What a selector promises the connector, in the states that are fit: one that is not empty returns
  -- a backend that stands in it, and keeps what stands in it; the exclusion of a backend that stands in
  -- it leaves fewer, and throws if it leaves none.
  pub record Shrinks (i : ISelector) : Type 1 where
    pub size : i.State → ℕ
    pub Fit : i.State → Type 0
    pub Stands : Backend → i.State → Type 0
    pub select :
        (client : Endpoint) (s : i.State)
        → Fit s
        → 0 < size s
        → (t : i.State) × (b : Backend) × (i.select_backend client s ≡ (t, ok b))
          × (size t ≡ size s)
          × Fit t
          × Stands b t
    pub exclude :
        (b : Backend) (s : i.State)
        → Fit s
        → Stands b s
        → (t : i.State) × ((i.exclude_backend b s ≡ (t, throws all_excluded))
            ⊎ ((i.exclude_backend b s ≡ (t, ok tt)) × Fit t × (0 < size t) × (size t < size s)))

  -- No operation of the client is under way.
  abbrev pub Settled : Progress → Type 0
  Settled (connecting b) = ⊥
  Settled (resolving b) = ⊥
  Settled (connecting_resolved b) = ⊥
  Settled broken = ⊥
  Settled _ = Unit {0}

  module _ (i : ISelector) (law : Shrinks i) (client : Endpoint) where
    -- How many completions are left at most. A client that is broken has none left that would do.
    abbrev Left : ℕ → i.State → Progress → Type 0
    Left n s (connecting b) = law.Fit s × law.Stands b s × (2 * law.size s ≤ n) × (0 < law.size s)
    Left n s (resolving b) = law.Fit s × law.Stands b s × (2 * law.size s ≤ n) × (0 < law.size s)
    Left n s (connecting_resolved b) = 1 ≤ n
    Left n s broken = ⊥
    Left n s _ = Unit {0}

    Left-started :
        (n : ℕ) (s : i.State) (b : Backend)
        → law.Fit s
        → law.Stands b s
        → 2 * law.size s ≤ n
        → 0 < law.size s
        → Left n s (started b)
    Left-started n s (of_endpoint e) fit st le pos = (fit, st, le, pos)
    Left-started n s (of_url u) fit st le pos = (fit, st, le, pos)

    pub Left-select :
        (n : ℕ) (s : i.State)
        → law.Fit s
        → 0 < law.size s
        → 2 * law.size s ≤ n
        → let r = make_and_run_session i client s in Left n r.0 r.1
    unfolding make_and_run_session
    Left-select n s fit pos le =
        let (t, b, e, same, fit', st) = law.select client s fit pos in
        rw e (Left-started n t b fit' st (omega (arith, same)) (omega (arith, same)))

    Left-error :
        (n : ℕ) (s : i.State) (b : Backend) (error : ErrorCode)
        → law.Fit s
        → law.Stands b s
        → 2 * law.size s ≤ suc n
        → let r = on_error i client b error s in Left n r.0 r.1
    unfolding on_error retried
    Left-error n s b error fit st le = elim (Bool-cases (is_refused error)) [
      | inr e ↦ rw e tt
      | inl e ↦ rw e (again (law.exclude b s fit st))
    ]
      where
        again :
            (t : i.State) × ((i.exclude_backend b s ≡ (t, throws all_excluded))
                ⊎ ((i.exclude_backend b s ≡ (t, ok tt))
                    × law.Fit t
                    × (0 < law.size t)
                    × (law.size t < law.size s)))
            → let r = retried i client (i.exclude_backend b s) in Left n r.0 r.1
        again (t, inl e) = rw e tt
        again (t, inr (e, fit', pos, lt)) = rw e (Left-select n t fit' pos (omega arith))

    Left-complete :
        (n : ℕ) (s : i.State) (p : Progress) (r : Option ErrorCode)
        → Left (suc n) s p
        → let c = complete i client r s p in Left n c.0 c.1
    unfolding complete
    Left-complete n s (connecting b) (some error) l = Left-error n s b error l.0 l.1 l.2
    Left-complete n s (connecting b) none l = tt
    Left-complete n s (resolving b) (some error) l = Left-error n s b error l.0 l.1 l.2
    Left-complete n s (resolving b) none l = omega (arith, l.2, l.3)
    Left-complete n s (connecting_resolved b) (some error) l = tt
    Left-complete n s (connecting_resolved b) none l = tt
    Left-complete n s (running b v) r l = tt
    Left-complete n s dropped r l = tt
    Left-complete n s (failed e) r l = tt
    Left-complete n s broken r l = l

    Left-zero : (s : i.State) (p : Progress) → Left 0 s p → Settled p
    Left-zero s (connecting b) l = omega (arith, l.2, l.3)
    Left-zero s (resolving b) l = omega (arith, l.2, l.3)
    Left-zero s (connecting_resolved b) l = omega arith
    Left-zero s (running b v) l = tt
    Left-zero s dropped l = tt
    Left-zero s (failed e) l = tt
    Left-zero s broken l = l

    Left-complete_all :
        (rs : List (Option ErrorCode)) (s : i.State) (p : Progress)
        → Left (length rs) s p
        → Settled (complete_all i client rs s p).1
    unfolding complete_all
    Left-complete_all [] s p l = Left-zero s p l
    Left-complete_all (r ∷ rs) s p l =
        let c = complete i client r s p in
        Left-complete_all rs c.0 c.1 (Left-complete (length rs) s p r l)

  -- With a selector that shrinks (selection returns what stands in it, exclusion leaves fewer or
  -- throws), is fit and not empty, whatever the completions report, after twice as many as there
  -- are backends the client has its session, was dropped, or its handler has ended with an
  -- exception: the retries end, and no call has undefined behaviour.
  pub retries_end :
      (i : ISelector) (law : Shrinks i) (client : Endpoint) (s : i.State)
      (rs : List (Option ErrorCode))
      → law.Fit s
      → 0 < law.size s
      → 2 * law.size s ≤ length rs
      → let r = make_and_run_session i client s in Settled (complete_all i client rs r.0 r.1).1
  retries_end i law client s rs fit pos le =
      let r = make_and_run_session i client s in
      Left-complete_all i law client rs r.0 r.1 (Left-select i law client (length rs) s fit pos le)
