-- ===== src/Connector/Duplicates.antt =====
-- An endpoint that the configuration gives twice, with LeastConnectionsSelector of
-- src/lb/tcp/selectors.cpp and the connector of src/lb/tcp/connector.cpp: elements of the heap that
-- the pool of handles does not know.
pub mod Doubled
use lb.Common.{
  ℕ, zero, suc, ◌+◌, ◌%◌, ◌≡◌, ◌≢◌, refl, sym, ap, ◌∙◌, inl, inr, List, [], ◌∷◌, Option, none, some,
  ok, throws, some_injective, Bool, true, false, replicate, size_mod, Option-cases, Bool-cases,
  str_eq, eq_iff, if◌then◌else◌,
}
use lb.Common.Assoc
use lb.Common.Assoc.{find-assign, find-erase}
use lb.Platform.{Asio}
use lb.Platform.Heap.{PairingHeap}
use lb.Backend.{Backend, Endpoint, to_string, of_endpoint, of_url}
use lb.Session.{connection_refused}
use lb.Selector.{least_connections_class}
use lb.Pool
use lb.Pool.Replacement
use lb.LeastConnections.{
  CounterWrapper, connections_compare, LeastConnections, initial, insert_backend, count_up,
  increase_connection_count, select_backend, exclude_backend, drop_entry,
}
use lb.LeastConnections.Counts.{changed, name_of}
use lb.LeastConnections.Selection.{counting}
use lb.LeastConnections.Membership.{exclude_found, exclude_missing}
use lb.Connector.{
  Progress, started, make_and_run_session, complete, complete_all, on_error, retried,
}
use lb.Connector.AllRefused.{refused_attempt}

module _ ⦃asio : Asio⦄ ⦃heap : PairingHeap CounterWrapper connections_compare⦄ where
  -- Every element of the heap is of the backend, and there is one under the handle `k`.
  pub record Only (b : Backend) (k : heap.Handle) (s : LeastConnections) : Type 0 where
    pub all : (j : heap.Handle) (w : CounterWrapper) → heap.at j s.backends ≡ some w → w.b ≡ b
    pub there : (w : CounterWrapper) × (heap.at k s.backends ≡ some w)

  pub top-Only :
      (b : Backend) (k : heap.Handle) (s : LeastConnections)
      → Only b k s
      → (w : CounterWrapper) × (heap.top s.backends ≡ some w) × (w.b ≡ b)
  top-Only b k s only = elim (Option-cases (heap.top s.backends)) [
    | inl empty ↦
        absurd (Pool.some≢none only.there.0 (sym (heap.top_none s.backends k empty) ∙ only.there.1))
    | inr (w, is_top) ↦
        let (j, at_j) = heap.top_at s.backends w is_top in (w, is_top, only.all j w at_j)
  ]

  -- The elements of the backend are out of reach of the pool.
  pub record Orphaned (b : Backend) (s : LeastConnections) : Type 0 where
    pub lost : Assoc.find (to_string b) s.handle_pool ≡ none
    pub kept : (k : heap.Handle) × Only b k s

  pub select-Orphaned :
      (b : Backend) (s : LeastConnections) → Orphaned b s → select_backend s ≡ (s, ok b)
  unfolding select_backend increase_connection_count
  select-Orphaned b s o =
      let (w, is_top, same) = top-Only b o.kept.0 s o.kept.1 in
      rw (is_top, select_backend) (rw (same, o.lost, increase_connection_count))

  again-Orphaned :
      (client : Endpoint) (b : Backend) (s : LeastConnections)
      → Orphaned b s
      → retried least_connections_class client (exclude_backend b s) ≡ (s, started b)
  unfolding retried make_and_run_session
  again-Orphaned client b s o = rw (exclude_missing b s o.lost) (rw (select-Orphaned b s o))

  -- From there a client is sent to the backend again and again.
  pub refused-Orphaned :
      (n : ℕ) (client : Endpoint) (b : Backend) (s : LeastConnections)
      → Orphaned b s
      → complete_all least_connections_class client
          (replicate n (some connection_refused))
          s
          (started b)
        ≡ (s, started b)
  unfolding complete_all
  refused-Orphaned zero client b s o = refl
  refused-Orphaned (suc n) client b s o =
      rw
        (
          complete_all,
          refused_attempt least_connections_class client b s ∙ again-Orphaned client b s o,
        )
        (refused-Orphaned n client b s o)
