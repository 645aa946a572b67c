-- ===== src/Application/Refused.antt =====
-- How a client that every backend refuses ends the process: the handlers of
-- src/lb/tcp/connector.cpp, ThreadRoutine and the exit code of src/lb/application.cpp together.
use lb.Common.{
  ℕ, ◌<◌, ◌≤◌, true, false, Bool, ◌≡◌, refl, ap, ◌∙◌, List, [], ◌∷◌, Option, some, map, replicate,
}
use lb.Platform.{Asio}
use lb.Backend.{Endpoint}
use lb.Session.{ErrorCode, connection_refused}
use lb.Selector.{ISelector}
use lb.Connector.{
  Progress, connecting, resolving, connecting_resolved, running, dropped, failed, broken,
  make_and_run_session, complete, complete_all,
}
use lb.Connector.AllRefused.{all_refused}
use lb.Connector.Clients.{
  Clients, arrival, completion, is_failed, arrive, handle_all, finish, resume,
}
use lb.Connector.Clients.Shared.{Shares}
use lb.Application.{Ending, returned, std_exception, application, run_threads}
use lb.Application.Threads.{run_threads_lem}

module _ ⦃asio : Asio⦄ where
  -- How ioc.run() ends of the thread that the clients are handled on.
  abbrev pub ending_of : {i : ISelector} → Clients i → Ending
  ending_of s = elim s.stopped [ true ↦ std_exception | false ↦ returned ]

  module _ (i : ISelector) (client : Endpoint) where
    -- One client and its progress.
    abbrev solo : i.State × Progress → Clients i
    solo (s, p) = record { selector = s; stopped = is_failed p; clients = (client, p) ∷ [] }

    -- A client alone goes on as the connector takes it.
    handle_all-solo :
        (rs : List (Option ErrorCode)) (s : i.State) (p : Progress)
        → handle_all i (map (completion 0) rs) (solo (s, p)) ≡ solo (complete_all i client rs s p)
    unfolding handle_all complete_all finish resume complete
    handle_all-solo [] s p = refl
    handle_all-solo (r ∷ rs) s (connecting b) =
        let n = complete i client r s (connecting b) in handle_all-solo rs n.0 n.1
    handle_all-solo (r ∷ rs) s (resolving b) =
        let n = complete i client r s (resolving b) in handle_all-solo rs n.0 n.1
    handle_all-solo (r ∷ rs) s (connecting_resolved b) =
        let n = complete i client r s (connecting_resolved b) in handle_all-solo rs n.0 n.1
    handle_all-solo (r ∷ rs) s (running b v) = handle_all-solo rs s (running b v)
    handle_all-solo (r ∷ rs) s dropped = handle_all-solo rs s dropped
    handle_all-solo (r ∷ rs) s (failed e) = handle_all-solo rs s (failed e)
    handle_all-solo (r ∷ rs) s broken = handle_all-solo rs s broken

    ends_stopped : (s : Clients i) → s.stopped ≡ true → ending_of s ≡ std_exception
    ends_stopped s h = stops s.stopped h
      where
        stops :
            (t : Bool)
            → t ≡ true
            → elim t [ true ↦ std_exception | false ↦ returned ] ≡ std_exception
        stops true h = refl
        stops false h = cc

    refused_solo :
        (law : Shares i) (n : ℕ) (s : i.State)
        → law.Fit s
        → 0 < law.size s
        → law.size s ≤ n
        → (handle_all i
            (map (completion 0) (replicate n (some connection_refused)))
            (solo (make_and_run_session i client s))).stopped
          ≡ true
    refused_solo law n s fit pos le =
        let r = make_and_run_session i client s in
        ap (λ (c : Clients i). c.stopped)
          (handle_all-solo (replicate n (some connection_refused)) r.0 r.1)
        ∙ ap is_failed (all_refused i law client n s fit pos le)

  -- With a selector that shares and serves at most n backends, a client that is accepted first and
  -- whose connections are all refused, n times, ends the process with EXIT_FAILURE and the
  -- io_context stopped, however the other threads end.
  pub all_refused-exit_code :
      (i : ISelector) (law : Shares i) (client : Endpoint) (n : ℕ) (s : i.State)
      (others : List Ending)
      → law.Fit s
      → 0 < law.size s
      → law.size s ≤ n
      → let opened : Clients i = record { selector = s; stopped = false; clients = [] } in
        let ended =
          handle_all i
            (arrival client ∷ map (completion 0) (replicate n (some connection_refused)))
            opened in
        run_threads (ending_of ended ∷ others) application
        ≡ record { exit_code = 1; stopped = true }
  unfolding handle_all arrive
  all_refused-exit_code i law client n s others fit pos le =
      let refusals = map (completion 0) (replicate n (some connection_refused)) in
      let ended : Clients i =
        handle_all i refusals (solo i client (make_and_run_session i client s)) in
      ap (λ (e : Ending). run_threads (e ∷ others) application)
        (ends_stopped i client ended (refused_solo i client law n s fit pos le))
      ∙ run_threads_lem (std_exception ∷ others)
