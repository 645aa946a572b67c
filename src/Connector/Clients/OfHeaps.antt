-- ===== src/Connector/Clients/OfHeaps.antt =====
-- LeastConnectionsSelector and LeastResponseTimeSelector of src/lb/tcp/selectors.cpp, shared by
-- clients.
use lb.Common.{
  ◌<◌, ◌+◌, ◌%◌, ◌≡◌, refl, ap, ◌∙◌, ◌⊎◌, inl, inr, true, false, Option, some, none, ok, throws,
  Outcome, length, all_excluded, size_mod,
}
use lb.Common.Assoc
use lb.Platform.{Asio, Double}
use lb.Platform.Heap.{PairingHeap}
use lb.Backend.{Backend, to_string}
use lb.Selector.{least_connections_class, least_response_time_class}
use lb.Pool.Size.{top-Linked, erased}
use lb.LeastConnections.{
  CounterWrapper, connections_compare, LeastConnections, count_up, increase_connection_count,
  select_backend, exclude_backend, drop_entry,
}
use lb.LeastConnections.Counts
use lb.LeastConnections.Counts.{Linked, changed, Linked-changed}
use lb.LeastConnections.Selection.{counting}
use lb.LeastConnections.Membership.{exclude_found, exclude_missing}
use lb.LeastResponseTime
use lb.LeastResponseTime.{AverageTimeWrapper, ema_compare, LeastResponseTime}
use lb.LeastResponseTime.Averages
use lb.LeastResponseTime.Selection
use lb.Connector.Clients.Shared.{Shares, is_found}

not_found : {A : Type 0} (o : Option A) → is_found o ≡ false → o ≡ none
not_found none h = refl
not_found (some a) h = cc

found : {A : Type 0} (o : Option A) → is_found o ≡ true → (a : A) × (o ≡ some a)
found none h = cc
found (some a) h = (a, refl)

-- How a call has ended, by how its last statement ended.
ended :
    {S : Type 0} {call : S × Outcome (Unit {0})} {t : S} {o : Outcome (Unit {0})} {A B C : Type 0}
    → call ≡ (t, o)
    → (o ≡ throws all_excluded) ⊎ ((o ≡ ok tt) × A × B × C)
    → (call ≡ (t, throws all_excluded)) ⊎ ((call ≡ (t, ok tt)) × A × B × C)
ended {t = t} e (inl thrown) = inl (e ∙ ap (λ o. (t, o)) thrown)
ended {t = t} e (inr (returned, a, b, c)) = inr (e ∙ ap (λ o. (t, o)) returned, a, b, c)

module _ ⦃asio : Asio⦄ ⦃heap : PairingHeap CounterWrapper connections_compare⦄ where
  select_top :
      (w : CounterWrapper) (k : heap.Handle) (s : LeastConnections)
      → heap.top s.backends ≡ some w
      → heap.at k s.backends ≡ some w
      → Assoc.find (to_string w.b) s.handle_pool ≡ some k
      → select_backend s ≡ (changed k (counting w ((w.counter + 1) % size_mod)) s, ok w.b)
  unfolding select_backend
  select_top w k s is_top at_k e =
      rw (is_top, select_backend) (rw (e, increase_connection_count) (rw (at_k, count_up)))

  pub least_connections-share :
      (s : LeastConnections)
      → Linked s
      → 0 < length s.handle_pool
      → (t : LeastConnections) × (b : Backend) × (select_backend s ≡ (t, ok b))
        × Linked t
        × (length t.handle_pool ≡ length s.handle_pool)
        × ((c : Backend)
            → is_found (Assoc.find (to_string c) t.handle_pool)
              ≡ is_found (Assoc.find (to_string c) s.handle_pool))
        × (is_found (Assoc.find (to_string b) t.handle_pool) ≡ true)
  least_connections-share s l pos =
      let (w, k, is_top, at_k, e) = top-Linked heap Counts.name_of s.handle_pool s.backends l pos in
      let new : CounterWrapper = counting w ((w.counter + 1) % size_mod) in
      (
        changed k new s,
        w.b,
        select_top w k s is_top at_k e,
        Linked-changed k w new s at_k l refl,
        refl,
        λ c. refl,
        rw e,
      )

  pub least_connections-exclude_there :
      (b : Backend) (s : LeastConnections)
      → Linked s
      → is_found (Assoc.find (to_string b) s.handle_pool) ≡ true
      → (t : LeastConnections) × ((exclude_backend b s ≡ (t, throws all_excluded))
          ⊎ ((exclude_backend b s ≡ (t, ok tt))
              × Linked t
              × (0 < length t.handle_pool)
              × (length t.handle_pool < length s.handle_pool)))
  unfolding drop_entry
  least_connections-exclude_there b s l h =
      let (k, e) = found (Assoc.find (to_string b) s.handle_pool) h in
      (
        record {
          handle_pool = Assoc.erase (to_string b) s.handle_pool;
          backends = heap.erase k s.backends;
        },
        ended (exclude_found b k s e)
            (erased heap Counts.name_of s.handle_pool (to_string b) k s.backends e l),
      )

  pub least_connections-exclude_absent :
      (b : Backend) (s : LeastConnections)
      → is_found (Assoc.find (to_string b) s.handle_pool) ≡ false
      → exclude_backend b s ≡ (s, ok tt)
  least_connections-exclude_absent b s h =
      exclude_missing b s (not_found (Assoc.find (to_string b) s.handle_pool) h)

  -- LeastConnectionsSelector keeps it, where its pool and its heap are linked.
  abbrev pub least_connections-Shares : Shares least_connections_class
  least_connections-Shares = record {
    size = λ s. length s.handle_pool;
    Fit = Linked;
    stands = λ b s. is_found (Assoc.find (to_string b) s.handle_pool);
    select = λ client s l pos. least_connections-share s l pos;
    exclude = λ b s l h. least_connections-exclude_there b s l h;
    exclude_absent = λ b s l pos h. (s, least_connections-exclude_absent b s h, l, refl, λ c. refl);
  }

module _ ⦃asio : Asio⦄ ⦃double : Double⦄ ⦃heap : PairingHeap AverageTimeWrapper ema_compare⦄ where
  pub least_response_time-share :
      (s : LeastResponseTime)
      → Averages.Linked s
      → 0 < length s.handle_pool
      → (t : LeastResponseTime) × (b : Backend) × (LeastResponseTime.select_backend s ≡ (t, ok b))
        × Averages.Linked t
        × (length t.handle_pool ≡ length s.handle_pool)
        × ((c : Backend)
            → is_found (Assoc.find (to_string c) t.handle_pool)
              ≡ is_found (Assoc.find (to_string c) s.handle_pool))
        × (is_found (Assoc.find (to_string b) t.handle_pool) ≡ true)
  least_response_time-share s l pos =
      let (w, k, is_top, at_k, e) =
        top-Linked heap Averages.name_of s.handle_pool s.backends l pos in
      (s, w.backend, Selection.select_top w s is_top, l, refl, λ c. refl, rw e)

  pub least_response_time-exclude_there :
      (b : Backend) (s : LeastResponseTime)
      → Averages.Linked s
      → is_found (Assoc.find (to_string b) s.handle_pool) ≡ true
      → (t : LeastResponseTime) × ((LeastResponseTime.exclude_backend b s
            ≡ (t, throws all_excluded))
          ⊎ ((LeastResponseTime.exclude_backend b s ≡ (t, ok tt))
              × Averages.Linked t
              × (0 < length t.handle_pool)
              × (length t.handle_pool < length s.handle_pool)))
  unfolding LeastResponseTime.drop_entry
  least_response_time-exclude_there b s l h =
      let (k, e) = found (Assoc.find (to_string b) s.handle_pool) h in
      (
        record {
          handle_pool = Assoc.erase (to_string b) s.handle_pool;
          backends = heap.erase k s.backends;
        },
        ended (Selection.exclude_found b k s e)
            (erased heap Averages.name_of s.handle_pool (to_string b) k s.backends e l),
      )

  pub least_response_time-exclude_absent :
      (b : Backend) (s : LeastResponseTime)
      → is_found (Assoc.find (to_string b) s.handle_pool) ≡ false
      → LeastResponseTime.exclude_backend b s ≡ (s, ok tt)
  least_response_time-exclude_absent b s h =
      Selection.exclude_missing b s (not_found (Assoc.find (to_string b) s.handle_pool) h)

  -- LeastResponseTimeSelector keeps it, where its pool and its heap are linked.
  abbrev pub least_response_time-Shares : Shares least_response_time_class
  least_response_time-Shares = record {
    size = λ s. length s.handle_pool;
    Fit = Averages.Linked;
    stands = λ b s. is_found (Assoc.find (to_string b) s.handle_pool);
    select = λ client s l pos. least_response_time-share s l pos;
    exclude = λ b s l h. least_response_time-exclude_there b s l h;
    exclude_absent =
        λ b s l pos h. (s, least_response_time-exclude_absent b s h, l, refl, λ c. refl);
  }
