-- ===== src/LeastConnections/Answers.antt =====
-- SelectBackend and IncreaseConnectionCount of LeastConnectionsSelector of
-- src/lb/tcp/selectors.cpp against the specification.
use mathlib.Core.Option
use lb.Common.{
  ℕ, suc, ◌+◌, ◌<◌, String, true, false, ◌≡◌, refl, sym, ◌∙◌, ◌⊎◌, inl, inr, none, some, ok, arith,
  str_eq, if◌then◌else◌, Bool-cases, Option-cases, size_mod, eq_iff, some_injective,
}
use lb.Common.Assoc
use lb.Platform.{Asio}
use lb.Platform.Heap.{PairingHeap}
use lb.Backend.{Backend, to_string}
use lb.LeastConnections.{CounterWrapper, connections_compare, LeastConnections}
use lb.LeastConnections.Counts.{Linked, connections, changed, Linked-changed, connections-changed}
use lb.LeastConnections.Selection.{counting, count_up_lem, Ordered-count_up, select_least}
use lb.LeastConnections.Counting.{at_name, unchanged, increase_found, increase_missing}
use lb.LeastConnections.Specification.{
  Call, select, increase, Reply, chosen, done, is_last, Step, selects, increases, perform,
}

module _ ⦃asio : Asio⦄ ⦃heap : PairingHeap CounterWrapper connections_compare⦄ where
  -- The selector can take `n` calls more.
  pub record Ready (n : ℕ) (s : LeastConnections) : Type 0 where
    pub linked : Linked s
    pub ordered : heap.Ordered s.backends
    pub some_counted : (key : String) × (m : ℕ) × (connections s key ≡ some m)
    pub fits : (name : String) (i : ℕ) → connections s name ≡ some i → i + n < size_mod

  -- A call answers what the specification allows, and leaves the selector ready, unless it is the
  -- exception.
  abbrev pub Implements : ℕ → Call → LeastConnections → Type 0
  Implements n c s =
      (t : LeastConnections) × (r : Reply) × (perform c s ≡ (t, ok r))
      × Step (connections s) c r (connections t)
      × ((is_last r ≡ true) ⊎ ((is_last r ≡ false) × Ready n t))

  -- The counts that are left are counts from before, or one more.
  fits-raised :
      (n : ℕ) (key name : String) (s : LeastConnections) (m i : ℕ)
      → ((name : String) (i : ℕ) → connections s name ≡ some i → i + suc n < size_mod)
      → connections s key ≡ some m
      → (if str_eq key name then some (suc m) else connections s name) ≡ some i
      → i + n < size_mod
  fits-raised n key name s m i fits e h = elim (Bool-cases (str_eq key name)) [
    | inl same ↦
        let raised : suc m ≡ i = some_injective (rw same at h) in
        omega (arith, fits key m e, raised)
    | inr differ ↦ omega (arith, fits name i (rw differ at h))
  ]

  pub select-Implements : (n : ℕ) (s : LeastConnections) → Ready (suc n) s → Implements n select s
  unfolding perform
  select-Implements n s ready =
      let (key, m, e) = ready.some_counted in
      let (t, b, k, called, has, least, counts, linked, ordered) =
        select_least s key m ready.linked ready.ordered
          (λ name i h. omega (arith, ready.fits name i h)) e in
      (
        t,
        chosen b,
        rw called,
        selects b k has least counts,
        inr (
          refl,
          record {
            linked = linked;
            ordered = ordered;
            some_counted = (
              to_string b,
              suc k,
              counts (to_string b) ∙ rw ((eq_iff (to_string b) (to_string b)).1 refl),
            );
            fits = λ name i h.
                fits-raised n (to_string b) name s k i ready.fits has (sym (counts name) ∙ h);
          },
        ),
      )

  pub increase-Implements :
      (n : ℕ) (b : Backend) (s : LeastConnections) → Ready (suc n) s → Implements n (increase b) s
  unfolding perform
  increase-Implements n b s ready = elim (Option-cases (Assoc.find (to_string b) s.handle_pool)) [
    | inl e ↦ (
      s,
      done,
      rw (increase_missing b s e),
      increases b λ name. unchanged b s name none (Option.map suc) (rw e) refl,
      inr (
        refl,
        record {
          linked = ready.linked;
          ordered = ready.ordered;
          some_counted = ready.some_counted;
          fits = λ name i h. omega (arith, ready.fits name i h);
        },
      ),
    )
    | inr (k, e) ↦
        let (w, at_k, named) = ready.linked.live (to_string b) k e in
        let here : connections s (to_string b) ≡ some w.counter = rw e (rw at_k) in
        let new : CounterWrapper = counting w (suc w.counter) in
        let raised = connections-changed k w new s at_k ready.linked in
        let raised' : (name : String)
            → connections (changed k new s) name
              ≡ (if str_eq (to_string b) name then some (suc w.counter) else connections s name) =
          (λ name. rw named at (raised name)) in
        (
          changed k new s,
          done,
          rw (increase_found b k s e) (
              rw
                (count_up_lem k w s at_k (omega (arith, ready.fits (to_string b) w.counter here)))),
          increases b
              λ name. raised' name ∙ at_name b s name (some w.counter) (Option.map suc) here,
          inr (
            refl,
            record {
              linked = Linked-changed k w new s at_k ready.linked refl;
              ordered = Ordered-count_up k w s ready.ordered at_k;
              some_counted = (
                to_string b,
                suc w.counter,
                raised' (to_string b) ∙ rw ((eq_iff (to_string b) (to_string b)).1 refl),
              );
              fits = λ name i h.
                  fits-raised n (to_string b) name s w.counter i ready.fits here
                    (sym (raised' name) ∙ h);
            },
          ),
        )
  ]
