-- ===== src/Connector/AllRefused.antt =====
-- A client of src/lb/tcp/connector.cpp that every backend refuses.
use lb.Common.{
  ℕ, zero, suc, true, ◌<◌, ◌≤◌, ◌≡◌, refl, ap, ◌⊎◌, inl, inr, some, ok, throws, arith, replicate,
  all_excluded,
}
use lb.Platform.{Asio}
use lb.Backend.{Backend, Endpoint, of_endpoint, of_url}
use lb.Session.{connection_refused}
use lb.Selector.{ISelector}
use lb.Connector.{
  Progress, failed, started, make_and_run_session, complete, complete_all, on_error, retried,
}
use lb.Connector.Clients.Shared.{Shares}

module _ ⦃asio : Asio⦄ where
  -- A refused attempt goes on with the exclusion, whichever operation it was.
  pub refused_attempt :
      (i : ISelector) (client : Endpoint) (b : Backend) (s : i.State)
      → complete i client (some connection_refused) s (started b)
        ≡ retried i client (i.exclude_backend b s)
  unfolding complete on_error
  refused_attempt i client (of_endpoint e) s = refl
  refused_attempt i client (of_url u) s = refl

  module _ (i : ISelector) (client : Endpoint) where
    failed-stays :
        (n : ℕ) (s : i.State)
        → complete_all i client (replicate n (some connection_refused)) s (failed all_excluded)
          ≡ (s, failed all_excluded)
    unfolding complete_all complete
    failed-stays zero s = refl
    failed-stays (suc n) s = failed-stays n s

    module _ (law : Shares i) where
      refused_from :
          (n : ℕ) (s : i.State) (b : Backend)
          → law.Fit s
          → law.stands b s ≡ true
          → law.size s ≤ n
          → 0 < law.size s
          → (complete_all i client (replicate n (some connection_refused)) s (started b)).1
            ≡ failed all_excluded
      unfolding complete_all retried make_and_run_session
      refused_from zero s b fit there le pos = absurd (omega arith)
      refused_from (suc n) s b fit there le pos =
          rw (complete_all, refused_attempt i client b s)
            (after (λ u c. refused_from n u c) (law.exclude b s fit there))
        where
          after :
              ((u : i.State) (c : Backend)
                → law.Fit u
                → law.stands c u ≡ true
                → law.size u ≤ n
                → 0 < law.size u
                → (complete_all i client (replicate n (some connection_refused)) u (started c)).1
                  ≡ failed all_excluded)
              → (t : i.State) × ((i.exclude_backend b s ≡ (t, throws all_excluded))
                  ⊎ ((i.exclude_backend b s ≡ (t, ok tt))
                      × law.Fit t
                      × (0 < law.size t)
                      × (law.size t < law.size s)))
              → let r = retried i client (i.exclude_backend b s) in
                (complete_all i client (replicate n (some connection_refused)) r.0 r.1).1
                ≡ failed all_excluded
          after ih (t, inl e) = rw e (ap (λ (r : i.State × Progress). r.1) (failed-stays n t))
          after ih (t, inr (e, fit', pos', lt)) =
              let (u, c, selects, fit'', same, stand, there') = law.select client t fit' pos' in
              rw e (
                rw selects
                  (ih u c fit'' there' (omega (arith, same, lt, le)) (omega (arith, same, pos'))))

  -- With a selector that shares and serves at most n backends, and no other client, a client whose
  -- connections are all refused is told so: n refusals later the exception that tells that all
  -- backends are excluded has left its handler.
  pub all_refused :
      (i : ISelector) (law : Shares i) (client : Endpoint) (n : ℕ) (s : i.State)
      → law.Fit s
      → 0 < law.size s
      → law.size s ≤ n
      → let r = make_and_run_session i client s in
        (complete_all i client (replicate n (some connection_refused)) r.0 r.1).1
        ≡ failed all_excluded
  unfolding make_and_run_session
  all_refused i law client n s fit pos le =
      let (t, b, selects, fit', same, stand, there) = law.select client s fit pos in
      rw selects (
        refused_from i client law n t b fit' there (omega (arith, same, le))
          (omega (arith, same, pos)))
