-- ===== src/LeastResponseTime/Averages.antt =====
-- The map from backends to averages that the pool of handles and the heap stand for, and what the
-- methods do to it.
use mathlib.Core.Option
use lb.Common.{
  String, ◌≡◌, refl, ◌∙◌, Option, none, some, ok, str_eq, eq_iff, if◌then◌else◌, Bool-cases,
  Option-cases, inl, inr, ℤ,
}
use lb.Common.Assoc
use lb.Platform.{Asio, Double}
use lb.Platform.Heap.{PairingHeap}
use lb.Pool
use lb.Pool.Replacement
use lb.Backend.{Backend, to_string}
use lb.LeastResponseTime.{
  AverageTimeWrapper, ema_compare, LeastResponseTime, reorder, add_time, add_response_time,
}

module _ ⦃asio : Asio⦄ ⦃double : Double⦄ where
  abbrev pub name_of : AverageTimeWrapper → String
  name_of w = to_string w.backend

  -- The entry with one more response time: the share 1 - alpha of the old average, and the share
  -- alpha of the time.
  abbrev pub timed : ℤ → AverageTimeWrapper → AverageTimeWrapper
  timed response_time w = record w {
    response_time_ema =
        double.add (double.mul (double.sub double.one w.alpha) w.response_time_ema)
          (double.mul w.alpha (double.of_long response_time));
  }

module _ ⦃asio : Asio⦄ ⦃double : Double⦄ ⦃heap : PairingHeap AverageTimeWrapper ema_compare⦄ where
  -- The pool holds, under its name, exactly the handle of each element of the heap.
  abbrev pub Linked : LeastResponseTime → Type 0
  Linked s = Pool.Linked heap name_of s.handle_pool s.backends

  -- The entry of a name.
  abbrev pub averages : LeastResponseTime → String → Option AverageTimeWrapper
  averages s key = Pool.entry heap name_of s.handle_pool s.backends key

  -- Whichever way the heap is mended, one element is replaced.
  Replaced-reorder :
      (k : heap.Handle) (old new : AverageTimeWrapper) (h : heap.Heap)
      → heap.at k h ≡ some old
      → Pool.Replaced heap name_of k new h (reorder k old new h)
  unfolding reorder
  Replaced-reorder k old new h at_k =
      elim (Bool-cases (double.gtb old.response_time_ema new.response_time_ema)) [
        | inl e ↦ rw (e, reorder) (Replacement.Replaced-decrease heap name_of k old new h at_k)
        | inr e ↦ rw (e, reorder) (Replacement.Replaced-increase heap name_of k old new h at_k)
      ]

  add_found :
      (b : Backend) (time : ℤ) (k : heap.Handle) (w : AverageTimeWrapper) (s : LeastResponseTime)
      → Assoc.find (to_string b) s.handle_pool ≡ some k
      → heap.at k s.backends ≡ some w
      → add_response_time b time s
        ≡ (record s { backends = reorder k w (timed time w) s.backends }, ok tt)
  unfolding add_response_time
  add_found b time k w s e at_k = rw (e, add_response_time) (rw (at_k, add_time))

  add_missing :
      (b : Backend) (time : ℤ) (s : LeastResponseTime)
      → Assoc.find (to_string b) s.handle_pool ≡ none
      → add_response_time b time s ≡ (s, ok tt)
  unfolding add_response_time
  add_missing b time s e = rw (e, add_response_time)

  abbrev other : Backend → ℤ → LeastResponseTime → String → Option AverageTimeWrapper
  other b time s name =
      if str_eq (to_string b) name
      then Option.map (timed time) (averages s name)
      else averages s name

  -- AddResponseTime of a linked selector returns, updates the moving average of the backend, if it
  -- has one, leaves the other averages, and keeps pool and heap linked.
  pub add_response_time_lem :
      (b : Backend) (time : ℤ) (s : LeastResponseTime)
      → Linked s
      → (t : LeastResponseTime) × (add_response_time b time s ≡ (t, ok tt))
        × ((name : String) → averages t name ≡ other b time s name)
        × Linked t
  add_response_time_lem b time s l = elim (Option-cases (Assoc.find (to_string b) s.handle_pool)) [
    | inl e ↦ (s, add_missing b time s e, λ name. absent e name, l)
    | inr (k, e) ↦
        let (w, at_k, named) = l.live (to_string b) k e in
        let r = Replaced-reorder k w (timed time w) s.backends at_k in
        (
          record s { backends = reorder k w (timed time w) s.backends },
          add_found b time k w s e at_k,
          λ name.
              (rw named at (
                Replacement.entry-replaced heap name_of s.handle_pool k w (timed time w) s.backends
                  _ at_k r l name))
              ∙ at_name name w (rw e (rw at_k)),
          Replacement.Linked-replaced heap name_of s.handle_pool k w (timed time w) s.backends _
              at_k r l refl,
        )
  ]
    where
      absent :
          Assoc.find (to_string b) s.handle_pool ≡ none
          → (name : String) → averages s name ≡ other b time s name
      absent e name = elim (Bool-cases (str_eq (to_string b) name)) [
        | inl same ↦
            let gone : Assoc.find name s.handle_pool ≡ none =
              rw (← (eq_iff (to_string b) name).0 same) e in
            rw (same, gone)
        | inr differ ↦ rw differ
      ]

      at_name :
          (name : String) (w : AverageTimeWrapper)
          → averages s (to_string b) ≡ some w
          → (if str_eq (to_string b) name then some (timed time w) else averages s name)
            ≡ other b time s name
      at_name name w e = elim (Bool-cases (str_eq (to_string b) name)) [
        | inl same ↦
            let here : averages s name ≡ some w = rw (← (eq_iff (to_string b) name).0 same) e in
            rw (same, here)
        | inr differ ↦ rw differ
      ]
