-- ===== src/Connector/Window.antt =====
-- What other threads meet between the exception of the last exclusion, which leaves a handler of
-- src/lb/tcp/connector.cpp, and the call of io_context.stop() in ThreadRoutine of
-- src/lb/application.cpp.
use lb.Common.{
  true, undefined, eq_iff, ◌≡◌, refl, sym, ap, ◌∙◌, inl, inr, [], none, some, ok, throws, Outcome,
  all_excluded, Option-cases,
}
use lb.Common.Assoc
use lb.Common.Assoc.{find-erase}
use lb.Platform.{Asio}
use lb.Platform.Heap.{PairingHeap}
use lb.Backend.{Backend, Endpoint, to_string}
use lb.RoundRobin.{RoundRobin}
use lb.RoundRobin
use lb.RoundRobin.Exclusion.{exclude_backend_lem, select_backend_lem}
use lb.Pool
use lb.LeastConnections
use lb.LeastConnections.{CounterWrapper, connections_compare, LeastConnections}
use lb.LeastConnections.Membership.{exclude_found, exclude_missing}
use lb.Selector.{round_robin_class, least_connections_class}
use lb.Session.{connection_refused}
use lb.Connector.{broken, started, make_and_run_session, retried, complete}
use lb.Connector.AllRefused.{refused_attempt}

module _ ⦃asio : Asio⦄ where
  -- Once ExcludeBackend of the round-robin selector has thrown, a client that another thread
  -- connects before the io_context is stopped makes SelectBackend divide by zero.
  pub select-after_throw :
      (client : Endpoint) (b : Backend) (s t : RoundRobin)
      → RoundRobin.exclude_backend b s ≡ (t, throws all_excluded)
      → make_and_run_session round_robin_class client t ≡ (t, broken)
  unfolding make_and_run_session
  select-after_throw client b s t h =
      let (thrown, _, _) = exclude_backend_lem b s in
      let left : (RoundRobin.exclude_backend b s).0.backends ≡ [] =
        thrown.0 (ap (λ (r : RoundRobin × Outcome (Unit {0})). r.1) h) in
      let empty : t.backends ≡ [] = rw h at left in
      elim (select_backend_lem t) [
        | inl (none_left, e) ↦ rw e
        | inr (a, c, e, c_in, at_c) ↦ absurd (let no = rw empty at at_c in cc)
      ]

module _ ⦃asio : Asio⦄ ⦃heap : PairingHeap CounterWrapper connections_compare⦄ where
  select_empty :
      (s : LeastConnections)
      → heap.is_empty s.backends ≡ true
      → LeastConnections.select_backend s ≡ (s, undefined)
  unfolding LeastConnections.select_backend
  select_empty s e = elim (Option-cases (heap.top s.backends)) [
    | inl no_top ↦ rw (no_top, LeastConnections.select_backend)
    | inr (w, is_top) ↦
        let (k, at_k) = heap.top_at s.backends w is_top in
        absurd (Pool.some≢none w (sym (heap.is_empty_none s.backends k e) ∙ at_k))
  ]

  refused_empty :
      (client : Endpoint) (b : Backend) (s : LeastConnections)
      → Assoc.find (to_string b) s.handle_pool ≡ none
      → heap.is_empty s.backends ≡ true
      → complete least_connections_class client (some connection_refused) s (started b)
        ≡ (s, broken)
  unfolding retried make_and_run_session
  refused_empty client b s gone empty =
      rw (refused_attempt least_connections_class client b s)
        (rw (exclude_missing b s gone) (rw (select_empty s empty)))

  -- Once ExcludeBackend of the least-connections selector has thrown, a second client that was
  -- refused by the same backend does not get the exception: ExcludeBackend returns, since the name
  -- is gone, and SelectBackend takes the top of an empty heap.
  pub refused-after_throw :
      (client : Endpoint) (b : Backend) (s t : LeastConnections)
      → LeastConnections.exclude_backend b s ≡ (t, throws all_excluded)
      → complete least_connections_class client (some connection_refused) t (started b)
        ≡ (t, broken)
  unfolding LeastConnections.drop_entry
  refused-after_throw client b s t h =
      elim (Option-cases (Assoc.find (to_string b) s.handle_pool)) [
        | inl e ↦ absurd (
            let no : ok tt ≡ throws all_excluded = ap outcome (sym (exclude_missing b s e) ∙ h) in
            cc)
        | inr (k, e) ↦
            let dropped = sym (exclude_found b k s e) ∙ h in
            let empty : heap.is_empty (heap.erase k s.backends) ≡ true =
              Pool.throws_if _ (ap outcome dropped) in
            let t_is : _ ≡ t = ap left dropped in
            refused_empty client b t
              (ap (λ (x : LeastConnections). Assoc.find (to_string b) x.handle_pool) (sym t_is)
                ∙ find-erase (to_string b) (to_string b) s.handle_pool
                ∙ rw ((eq_iff (to_string b) (to_string b)).1 refl))
              (ap (λ (x : LeastConnections). heap.is_empty x.backends) (sym t_is) ∙ empty)
      ]
    where
      outcome : LeastConnections × Outcome (Unit {0}) → Outcome (Unit {0})
      outcome r = r.1

      left : LeastConnections × Outcome (Unit {0}) → LeastConnections
      left r = r.0
