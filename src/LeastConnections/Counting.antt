-- ===== src/LeastConnections/Counting.antt =====
-- What the calls of the least-connections selector that count do to the counts.
use mathlib.Core.Option
use lb.Common.{
  ℕ, suc, ◌-◌, ◌<◌, String, true, false, ◌≡◌, refl, sym, ap, ◌∙◌, Option, none, some, ok, arith,
  str_eq, eq_iff, if◌then◌else◌, Bool-cases, Option-cases, inl, inr, some_injective, ltb, size_mod,
}
use lb.Common.Assoc
use lb.Platform.{Asio}
use lb.Platform.Heap.{PairingHeap}
use lb.Backend.{Backend, to_string}
use lb.LeastConnections.{
  CounterWrapper, connections_compare, LeastConnections, count_up, count_down,
  increase_connection_count, decrease_connection_count,
}
use lb.LeastConnections.Counts.{Linked, connections, changed, Linked-changed, connections-changed}
use lb.LeastConnections.Selection.{counting, counted, count_up_lem}

module _ ⦃asio : Asio⦄ ⦃heap : PairingHeap CounterWrapper connections_compare⦄ where
  -- Where the name is the backend's, the count is the backend's.
  pub at_name :
      (b : Backend) (s : LeastConnections) (name : String) (o : Option ℕ) (f : Option ℕ → Option ℕ)
      → connections s (to_string b) ≡ o
      → (if str_eq (to_string b) name then f o else connections s name)
        ≡ (if str_eq (to_string b) name then f (connections s name) else connections s name)
  at_name b s name o f e = elim (Bool-cases (str_eq (to_string b) name)) [
    | inl same ↦
        rw same
          (ap f (sym e ∙ ap (λ (t : String). connections s t) ((eq_iff (to_string b) name).0 same)))
    | inr differ ↦ rw differ
  ]

  -- Nothing changes where the change of the backend's count is none.
  pub unchanged :
      (b : Backend) (s : LeastConnections) (name : String) (o : Option ℕ) (f : Option ℕ → Option ℕ)
      → connections s (to_string b) ≡ o
      → f o ≡ o
      → connections s name
        ≡ (if str_eq (to_string b) name then f (connections s name) else connections s name)
  unchanged b s name o f e fixed = elim (Bool-cases (str_eq (to_string b) name)) [
    | inl same ↦
        let at : connections s name ≡ o =
          sym (ap (λ (t : String). connections s t) ((eq_iff (to_string b) name).0 same)) ∙ e in
        rw same (at ∙ sym fixed ∙ ap f (sym at))
    | inr differ ↦ rw differ
  ]

  abbrev one_less : Option ℕ → Option ℕ
  one_less = Option.map (λ n. n - 1)

  -- The call on the handle of a name, with at least one connection and with none.
  count_down-some :
      (k : heap.Handle) (w : CounterWrapper) (s : LeastConnections)
      → heap.at k s.backends ≡ some w
      → ltb 0 w.counter ≡ true
      → count_down k s ≡ (changed k (counting w (w.counter - 1)) s, ok tt)
  unfolding count_down
  count_down-some k w s at_k pos = rw (at_k, count_down) (rw pos)

  count_down_zero :
      (k : heap.Handle) (w : CounterWrapper) (s : LeastConnections)
      → heap.at k s.backends ≡ some w
      → ltb 0 w.counter ≡ false
      → count_down k s ≡ (s, ok tt)
  unfolding count_down
  count_down_zero k w s at_k zero_count = rw (at_k, count_down) (rw zero_count)

  decrease_found :
      (b : Backend) (k : heap.Handle) (s : LeastConnections)
      → Assoc.find (to_string b) s.handle_pool ≡ some k
      → decrease_connection_count b s ≡ count_down k s
  unfolding decrease_connection_count
  decrease_found b k s e = rw (e, decrease_connection_count)

  decrease_missing :
      (b : Backend) (s : LeastConnections)
      → Assoc.find (to_string b) s.handle_pool ≡ none
      → decrease_connection_count b s ≡ (s, ok tt)
  unfolding decrease_connection_count
  decrease_missing b s e = rw (e, decrease_connection_count)

  -- DecreaseConnectionCount of a linked selector returns, takes one connection from the count of
  -- the backend, if it has one, leaves the other counts, and keeps pool and heap linked.
  pub decrease_lem :
      (b : Backend) (s : LeastConnections)
      → Linked s
      → (t : LeastConnections) × (decrease_connection_count b s ≡ (t, ok tt))
        × ((name : String)
            → connections t name ≡ (
                if str_eq (to_string b) name
                then one_less (connections s name)
                else connections s name))
        × Linked t
  decrease_lem b s l = elim (Option-cases (Assoc.find (to_string b) s.handle_pool)) [
    | inl e ↦ (s, decrease_missing b s e, λ name. unchanged b s name none one_less (rw e) refl, l)
    | inr (k, e) ↦
        let (w, at_k, named) = l.live (to_string b) k e in
        let n : connections s (to_string b) ≡ some w.counter = rw e (rw at_k) in
        elim (Bool-cases (ltb 0 w.counter)) [
          | inl pos ↦
              let new : CounterWrapper = counting w (w.counter - 1) in
              (
                changed k new s,
                decrease_found b k s e ∙ count_down-some k w s at_k pos,
                λ name.
                    (rw named at (connections-changed k w new s at_k l name))
                    ∙ at_name b s name (some w.counter) one_less n,
                Linked-changed k w new s at_k l refl,
              )
          | inr zero_count ↦
              let none_left : w.counter - 1 ≡ w.counter = ground arith in
              (
                s,
                decrease_found b k s e ∙ count_down_zero k w s at_k zero_count,
                λ name. unchanged b s name (some w.counter) one_less n (ap some none_left),
                l,
              )
        ]
  ]

  pub increase_found :
      (b : Backend) (k : heap.Handle) (s : LeastConnections)
      → Assoc.find (to_string b) s.handle_pool ≡ some k
      → increase_connection_count b s ≡ count_up k s
  unfolding increase_connection_count
  increase_found b k s e = rw (e, increase_connection_count)

  -- IncreaseConnectionCount of a backend that is counted adds one to its count, leaves the other
  -- counts, and keeps pool and heap linked.
  pub increase_lem :
      (b : Backend) (m : ℕ) (s : LeastConnections)
      → Linked s
      → connections s (to_string b) ≡ some m
      → suc m < size_mod
      → (t : LeastConnections) × (increase_connection_count b s ≡ (t, ok tt))
        × ((name : String)
            → connections t name
              ≡ (if str_eq (to_string b) name then some (suc m) else connections s name))
        × Linked t
  increase_lem b m s l e fits =
      let (k, w, found, at_k, n) = counted s (to_string b) m e in
      let (v, at_v, named) = l.live (to_string b) k found in
      let same : v ≡ w = some_injective (sym at_v ∙ at_k) in
      let name_w : to_string w.b ≡ to_string b =
        ap (λ (x : CounterWrapper). to_string x.b) (sym same) ∙ named in
      let new : CounterWrapper = counting w (suc w.counter) in
      let changes = connections-changed k w new s at_k l in
      (
        changed k new s,
        increase_found b k s found ∙ count_up_lem k w s at_k (omega (arith, n, fits)),
        λ name.
            (rw name_w at (changes name))
            ∙ ap (λ (c : ℕ). if str_eq (to_string b) name then some (suc c) else connections s name)
                n,
        Linked-changed k w new s at_k l refl,
      )

  pub increase_missing :
      (b : Backend) (s : LeastConnections)
      → Assoc.find (to_string b) s.handle_pool ≡ none
      → increase_connection_count b s ≡ (s, ok tt)
  unfolding increase_connection_count
  increase_missing b s e = rw (e, increase_connection_count)

  -- IncreaseConnectionCount, of a backend that is counted or not.
  pub increase_any :
      (b : Backend) (s : LeastConnections)
      → Linked s
      → ((name : String) (n : ℕ) → connections s name ≡ some n → suc n < size_mod)
      → (t : LeastConnections) × (increase_connection_count b s ≡ (t, ok tt))
        × ((name : String)
            → connections t name ≡ (
                if str_eq (to_string b) name
                then Option.map suc (connections s name)
                else connections s name))
        × Linked t
  increase_any b s l fits = elim (Option-cases (Assoc.find (to_string b) s.handle_pool)) [
    | inl e ↦
        (s, increase_missing b s e, λ name. unchanged b s name none (Option.map suc) (rw e) refl, l)
    | inr (k, e) ↦
        let (w, at_k, named) = l.live (to_string b) k e in
        let here : connections s (to_string b) ≡ some w.counter = rw e (rw at_k) in
        let (t, called, counts, linked) =
          increase_lem b w.counter s l here (fits (to_string b) w.counter here) in
        (
          t,
          called,
          λ name. counts name ∙ at_name b s name (some w.counter) (Option.map suc) here,
          linked,
        )
  ]
