-- ===== src/Connector/Duplicates/Doubled.antt =====
-- A backend that was inserted twice into LeastConnectionsSelector of src/lb/tcp/selectors.cpp.
use lb.Common.{
  ℕ, zero, suc, ◌+◌, ◌%◌, ◌≡◌, ◌≢◌, refl, sym, ap, ◌∙◌, inl, inr, [], some, ok, some_injective,
  false, replicate, size_mod, Bool-cases, eq_iff,
}
use lb.Common.Assoc
use lb.Common.Assoc.{find-assign, find-erase}
use lb.Platform.{Asio}
use lb.Platform.Heap.{PairingHeap}
use lb.Backend.{Backend, Endpoint, to_string}
use lb.Session.{connection_refused}
use lb.Selector.{least_connections_class}
use lb.Pool
use lb.Pool.Replacement
use lb.LeastConnections.{
  CounterWrapper, connections_compare, LeastConnections, initial, insert_backend, count_up,
  increase_connection_count, select_backend, exclude_backend, drop_entry,
}
use lb.LeastConnections.Counts.{changed, name_of}
use lb.LeastConnections.Selection.{counting}
use lb.LeastConnections.Membership.{exclude_found}
use lb.Connector.{Progress, started, make_and_run_session, complete_all, retried}
use lb.Connector.AllRefused.{refused_attempt}
use lb.Connector.Duplicates.{Only, Orphaned, top-Only, select-Orphaned, refused-Orphaned}

module _ ⦃asio : Asio⦄ ⦃heap : PairingHeap CounterWrapper connections_compare⦄ where
  -- Two elements of the backend, of which the pool knows the second one.
  record Doubled (b : Backend) (s : LeastConnections) : Type 0 where
    first : heap.Handle
    second : heap.Handle
    apart : first ≢ second
    pooled : Assoc.find (to_string b) s.handle_pool ≡ some second
    only : Only b first s
    second_there : (w : CounterWrapper) × (heap.at second s.backends ≡ some w)

  -- What the operations of the heap leave of its elements.
  all_pushed :
      (b : Backend) (w : CounterWrapper) (h : heap.Heap)
      → ((j : heap.Handle) (x : CounterWrapper) → heap.at j h ≡ some x → x.b ≡ b)
      → w.b ≡ b
      → (j : heap.Handle) (x : CounterWrapper) → heap.at j (heap.push w h) ≡ some x
      → x.b ≡ b
  all_pushed b w h all same j x e = elim (heap.Handle_discrete j (heap.pushed w h)) [
    | yes p ↦
        let here : w ≡ x =
          some_injective
            (sym (heap.at_pushed w h) ∙ ap (λ i. heap.at i (heap.push w h)) (sym p) ∙ e) in
        ap (λ (v : CounterWrapper). v.b) (sym here) ∙ same
    | no ne ↦ all j x (sym (heap.at_push w h j ne) ∙ e)
  ]

  all_changed :
      (b : Backend) (k : heap.Handle) (old new : CounterWrapper) (s : LeastConnections)
      → ((j : heap.Handle) (x : CounterWrapper) → heap.at j s.backends ≡ some x → x.b ≡ b)
      → heap.at k s.backends ≡ some old
      → new.b ≡ b
      → (j : heap.Handle) (x : CounterWrapper) → heap.at j (changed k new s).backends ≡ some x
      → x.b ≡ b
  all_changed b k old new s all at_k same j x e =
      let r = Replacement.Replaced-decrease heap name_of k old new s.backends at_k in
      elim (heap.Handle_discrete j k) [
        | yes p ↦
            let here : new ≡ x =
              some_injective
                (sym r.at_self ∙ ap (λ i. heap.at i (changed k new s).backends) (sym p) ∙ e) in
            ap (λ (v : CounterWrapper). v.b) (sym here) ∙ same
        | no ne ↦ all j x (sym (r.at_ne j ne) ∙ e)
      ]

  all_erased :
      (k j : heap.Handle) (x : CounterWrapper) (h : heap.Heap)
      → heap.at j (heap.erase k h) ≡ some x
      → heap.at j h ≡ some x
  all_erased k j x h e = elim (heap.Handle_discrete j k) [
    | yes p ↦ absurd (
        Pool.some≢none x
          (sym (heap.at_erase_self k h) ∙ ap (λ i. heap.at i (heap.erase k h)) (sym p) ∙ e))
    | no ne ↦ sym (heap.at_erase_ne k j h ne) ∙ e
  ]

  inserted_twice : (b : Backend) → Doubled b (insert_backend b (insert_backend b initial))
  unfolding insert_backend initial
  inserted_twice b =
      let w : CounterWrapper = record { b = b; counter = 0 } in
      let one : heap.Heap = heap.push w heap.empty in
      let first = heap.pushed w heap.empty in
      let second = heap.pushed w one in
      let apart : first ≢ second = (λ p. Pool.some≢none w (
        sym (heap.pushed_fresh w one)
        ∙ ap (λ i. heap.at i one) (sym p)
        ∙ heap.at_pushed w heap.empty)) in
      record {
        first = first;
        second = second;
        apart = apart;
        pooled =
            find-assign (to_string b) (to_string b) second (Assoc.assign (to_string b) first [])
            ∙ rw ((eq_iff (to_string b) (to_string b)).1 refl);
        only = record {
          all =
              all_pushed b w one
                (all_pushed b w heap.empty
                  (λ j x e. absurd (Pool.some≢none x (sym (heap.at_empty j) ∙ e))) refl)
                refl;
          there = (w, heap.at_push w one first apart ∙ heap.at_pushed w heap.empty);
        };
        second_there = (w, heap.at_pushed w one);
      }

  select-Doubled :
      (b : Backend) (s : LeastConnections)
      → Doubled b s
      → (t : LeastConnections) × (select_backend s ≡ (t, ok b)) × Doubled b t
  unfolding select_backend increase_connection_count count_up
  select-Doubled b s d =
      let (w, is_top, same) = top-Only b d.first s d.only in
      let (v, at_v) = d.second_there in
      let new : CounterWrapper = counting v ((v.counter + 1) % size_mod) in
      let r = Replacement.Replaced-decrease heap name_of d.second v new s.backends at_v in
      (
        changed d.second new s,
        rw (is_top, select_backend)
            (rw (same, d.pooled, increase_connection_count) (rw (at_v, count_up))),
        record {
          first = d.first;
          second = d.second;
          apart = d.apart;
          pooled = d.pooled;
          only = record {
            all = all_changed b d.second v new s d.only.all at_v (d.only.all d.second v at_v);
            there = (d.only.there.0, r.at_ne d.first d.apart ∙ d.only.there.1);
          };
          second_there = (new, r.at_self);
        },
      )

  exclude-Doubled :
      (b : Backend) (s : LeastConnections)
      → Doubled b s
      → (t : LeastConnections) × (exclude_backend b s ≡ (t, ok tt)) × Orphaned b t
  unfolding drop_entry
  exclude-Doubled b s d =
      let left : heap.Heap = heap.erase d.second s.backends in
      let (w, at_first) = d.only.there in
      let there = heap.at_erase_ne d.second d.first s.backends d.apart ∙ at_first in
      let some_left : heap.is_empty left ≡ false = elim (Bool-cases (heap.is_empty left)) [
        | inl e ↦ absurd (Pool.some≢none w (sym (heap.is_empty_none left d.first e) ∙ there))
        | inr e ↦ e
      ] in
      let t : LeastConnections = record {
        handle_pool = Assoc.erase (to_string b) s.handle_pool;
        backends = left;
      } in
      (
        t,
        exclude_found b d.second s d.pooled ∙ rw (drop_entry, some_left),
        record {
          lost =
              find-erase (to_string b) (to_string b) s.handle_pool
              ∙ rw ((eq_iff (to_string b) (to_string b)).1 refl);
          kept = (
            d.first,
            record {
              all = λ j x e. d.only.all j x (all_erased d.second j x s.backends e);
              there = (w, there);
            },
          );
        },
      )

  -- A least-connections selector into which one backend was inserted twice never tells that all
  -- backends are excluded: however often the connection of a client is refused, the client is sent
  -- to that backend again.
  pub refused_forever :
      (n : ℕ) (client : Endpoint) (b : Backend)
      → let i = least_connections_class in
        let r = make_and_run_session i client (insert_backend b (insert_backend b initial)) in
        (complete_all i client (replicate n (some connection_refused)) r.0 r.1).1 ≡ started b
  unfolding make_and_run_session complete_all retried
  refused_forever n client b =
      let (s, selects, d) =
        select-Doubled b (insert_backend b (insert_backend b initial)) (inserted_twice b) in
      rw selects (from n s d)
    where
      from :
          (n : ℕ) (s : LeastConnections)
          → Doubled b s
          → (complete_all least_connections_class client
              (replicate n (some connection_refused))
              s
              (started b)).1
            ≡ started b
      from zero s d = refl
      from (suc n) s d =
          let (t, excludes, o) = exclude-Doubled b s d in
          let goes : retried least_connections_class client (exclude_backend b s) ≡ (t, started b) =
            rw excludes (rw (select-Orphaned b t o)) in
          rw (complete_all, refused_attempt least_connections_class client b s ∙ goes)
            (ap (λ (r : LeastConnections × Progress). r.1) (refused-Orphaned n client b t o))
