-- ===== src/Connector/Clients/Handlers.antt =====
-- What the handlers of src/lb/tcp/connector.cpp leave a selector and one client.
use lb.Common.{
  ℕ, ◌+◌, ◌*◌, ◌<◌, ◌≤◌, ◌≡◌, refl, ◌∙◌, ◌⊎◌, inl, inr, true, false, Option, none, some, ok, throws,
  Exception, all_excluded, arith, Bool-cases,
}
use lb.Platform.{Asio}
use lb.Backend.{Backend, Endpoint, of_endpoint, of_url}
use lb.Session.{ErrorCode}
use lb.Selector.{ISelector}
use lb.Connector.{
  Progress, connecting, resolving, connecting_resolved, running, dropped, failed, broken, started,
  make_and_run_session, retried, on_error, is_refused, complete,
}
use lb.Connector.Clients.{is_waiting, is_failed}
use lb.Connector.Clients.Shared.{Shares, Serves, Below, Sane, Goes, left, attempts, attempts-ge}

module _ ⦃asio : Asio⦄ where
  module _ {i : ISelector} (law : Shares i) where
    Goes-started :
        (s t : i.State) (b : Backend) (n : ℕ)
        → Serves law t
        → Below law t s
        → law.stands b t ≡ true
        → 2 * law.size t < n
        → Goes law s n (t, started b)
    Goes-started s t (of_endpoint e) n serves below there lt = record {
      serves = serves;
      below = below;
      sane = tt;
      calm = refl;
      fewer = rw there lt;
    }
    Goes-started s t (of_url u) n serves below there lt = record {
      serves = serves;
      below = below;
      sane = tt;
      calm = refl;
      fewer = rw there lt;
    }

    Below-select :
        (u t s : i.State)
        → law.size u ≡ law.size t
        → ((c : Backend) → law.stands c u ≡ law.stands c t)
        → Below law t s
        → Below law u s
    Below-select u t s same stand (inl lt) = inl (omega (arith, lt, same))
    Below-select u t s same stand (inr (e, f)) = inr (same ∙ e, λ c. stand c ∙ f c)

    -- A selection for a client that has had more attempts than are left.
    pub Goes-select :
        (client : Endpoint) (s t : i.State) (n : ℕ)
        → Serves law t
        → Below law t s
        → 2 * law.size t < n
        → Goes law s n (make_and_run_session i client t)
    unfolding make_and_run_session
    Goes-select client s t n serves below lt =
        let (u, b, e, fit, same, stand, there) = law.select client t serves.fit serves.pos in
        rw e (
          Goes-started s u b n (record { fit = fit; pos = omega (arith, same, serves.pos) })
            (Below-select u t s same stand below) there (omega (arith, same, lt)))

    -- A handler has thrown, or it has not.
    abbrev pub Ends : i.State → ℕ → i.State × Progress → Type 0
    Ends s n r = ((e : Exception) × (r.1 ≡ failed e)) ⊎ Goes law s n r

    Ends-refused :
        (client : Endpoint) (b : Backend) (s : i.State)
        → Serves law s
        → Ends s
            (attempts law (law.stands b s) (law.size s))
            (retried i client (i.exclude_backend b s))
    unfolding retried
    Ends-refused client b s serves = elim (Bool-cases (law.stands b s)) [
      | inl there ↦ rw there (again (law.exclude b s serves.fit there))
      | inr gone ↦
          let (t, e, fit, same, stand) = law.exclude_absent b s serves.fit serves.pos gone in
          rw (gone, e)
            (inr (
              Goes-select client s t (2 * law.size s + 2)
                (record { fit = fit; pos = omega (arith, same, serves.pos) }) (inr (same, stand))
                (omega (arith, same))))
    ]
      where
        again :
            (t : i.State) × ((i.exclude_backend b s ≡ (t, throws all_excluded))
                ⊎ ((i.exclude_backend b s ≡ (t, ok tt))
                    × law.Fit t
                    × (0 < law.size t)
                    × (law.size t < law.size s)))
            → Ends s (2 * law.size s) (retried i client (i.exclude_backend b s))
        again (t, inl e) = rw e (inl (all_excluded, refl))
        again (t, inr (e, fit, pos, lt)) = rw e (
            inr (
              Goes-select client s t (2 * law.size s) (record { fit = fit; pos = pos }) (inl lt)
                (omega arith)))

    -- A selector that no handler has touched.
    Goes-same :
        (s : i.State) (p : Progress) (n : ℕ)
        → Serves law s
        → Sane law p
        → is_failed p ≡ false
        → left law s p < n
        → Goes law s n (s, p)
    Goes-same s p n serves sane calm lt = record {
      serves = serves;
      below = inr (refl, λ c. refl);
      sane = sane;
      calm = calm;
      fewer = lt;
    }

    attempts_two :
        (s : i.State) (b : Backend) → Serves law s → 2 ≤ attempts law (law.stands b s) (law.size s)
    attempts_two s b serves =
        omega (arith, serves.pos, attempts-ge law (law.stands b s) (law.size s))

    Ends-error :
        (client : Endpoint) (b : Backend) (error : ErrorCode) (s : i.State)
        → Serves law s
        → Ends s (attempts law (law.stands b s) (law.size s)) (on_error i client b error s)
    unfolding on_error
    Ends-error client b error s serves = elim (Bool-cases (is_refused error)) [
      | inl e ↦ rw e (Ends-refused client b s serves)
      | inr e ↦
          rw e (inr (Goes-same s dropped _ serves tt refl (omega (arith, attempts_two s b serves))))
    ]

    -- The completion of an operation either ends the handler with an exception, or leaves the
    -- client fewer of them.
    pub Ends-complete :
        (client : Endpoint) (r : Option ErrorCode) (s : i.State) (p : Progress)
        → Serves law s
        → is_waiting p ≡ true
        → Ends s (left law s p) (complete i client r s p)
    unfolding complete
    Ends-complete client (some error) s (connecting b) serves w = Ends-error client b error s serves
    Ends-complete client none s (connecting b) serves w =
        inr (Goes-same s (running b _) _ serves tt refl (omega (arith, attempts_two s b serves)))
    Ends-complete client (some error) s (resolving b) serves w = Ends-error client b error s serves
    Ends-complete client none s (resolving b) serves w = inr (
        Goes-same s (connecting_resolved b) _ serves tt refl
          (omega (arith, attempts_two s b serves)))
    Ends-complete client (some error) s (connecting_resolved b) serves w =
        inr (Goes-same s dropped 1 serves tt refl (omega arith))
    Ends-complete client none s (connecting_resolved b) serves w =
        inr (Goes-same s (running b _) 1 serves tt refl (omega arith))
    Ends-complete client r s (running b v) serves w = cc
    Ends-complete client r s dropped serves w = cc
    Ends-complete client r s (failed e) serves w = cc
    Ends-complete client r s broken serves w = cc

    -- A client that waits has a completion left.
    pub left-waiting :
        (s : i.State) (p : Progress) → Serves law s → is_waiting p ≡ true → 1 ≤ left law s p
    left-waiting s (connecting b) serves w = omega (arith, attempts_two s b serves)
    left-waiting s (resolving b) serves w = omega (arith, attempts_two s b serves)
    left-waiting s (connecting_resolved b) serves w = omega arith
    left-waiting s (running b v) serves w = cc
    left-waiting s dropped serves w = cc
    left-waiting s (failed e) serves w = cc
    left-waiting s broken serves w = cc
