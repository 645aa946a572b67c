-- ===== src/LeastResponseTime/Selection.antt =====
-- Which backend SelectBackend of the least-response-time selector returns, and what InsertBackend
-- and ExcludeBackend leave.
use lb.Common.{
  String, false, ◌≡◌, sym, ◌∙◌, ◌↔◌, none, some, ok, throws, all_excluded, str_eq, if◌then◌else◌,
  Option-cases, inl, inr,
}
use lb.Common.Assoc
use lb.Platform.{Asio, Double}
use lb.Platform.Heap.{PairingHeap}
use lb.Pool
use lb.Pool.Erasure
use lb.Pool.Insertion
use lb.Backend.{Backend, to_string}
use lb.LeastResponseTime.{
  AverageTimeWrapper, ema_compare, LeastResponseTime, new_entry, insert_backend, select_backend,
  drop_entry, exclude_backend,
}
use lb.LeastResponseTime.Averages.{name_of, Linked, averages}

module _ ⦃asio : Asio⦄ ⦃double : Double⦄ ⦃heap : PairingHeap AverageTimeWrapper ema_compare⦄ where
  -- The cases of SelectBackend, by the top of the heap.
  pub select_top :
      (w : AverageTimeWrapper) (s : LeastResponseTime)
      → heap.top s.backends ≡ some w
      → select_backend s ≡ (s, ok w.backend)
  unfolding select_backend
  select_top w s e = rw (e, select_backend)

  -- From a linked selector with at least one backend, its heap in order, SelectBackend returns a
  -- backend whose average is not greater than any other's, and changes nothing.
  pub select_quickest :
      (s : LeastResponseTime) (key : String) (x : AverageTimeWrapper)
      → Linked s
      → heap.Ordered s.backends
      → averages s key ≡ some x
      → (w : AverageTimeWrapper) × (select_backend s ≡ (s, ok w.backend))
        × (averages s (to_string w.backend) ≡ some w)
        × ((name : String) (v : AverageTimeWrapper)
            → averages s name ≡ some v
            → double.gtb w.response_time_ema v.response_time_ema ≡ false)
  select_quickest s key x l o there = elim (Option-cases (heap.top s.backends)) [
    | inl empty ↦
        let (j, found, at_j) = Pool.entry-some heap name_of s.handle_pool s.backends key x there in
        absurd (Pool.some≢none x (sym (heap.top_none s.backends j empty) ∙ at_j))
    | inr (w, is_top) ↦
        let (k, at_k) = heap.top_at s.backends w is_top in
        (
          w,
          select_top w s is_top,
          Pool.entry-found heap name_of s.handle_pool s.backends (to_string w.backend) k w
              (l.pooled k w at_k) at_k,
          λ name v e.
              (let (j, found, at_j) =
                  Pool.entry-some heap name_of s.handle_pool s.backends name v e in
                heap.top_greatest s.backends w v j o is_top at_j),
        )
  ]

  -- InsertBackend of a name that is new adds an entry with the average 0.0 and the weight 0.9, leaves
  -- the others, and keeps pool and heap linked and the heap in order.
  pub insert_average :
      (b : Backend) (s : LeastResponseTime)
      → Linked s
      → heap.Ordered s.backends
      → Assoc.find (to_string b) s.handle_pool ≡ none
      → Linked (insert_backend b s)
        × heap.Ordered (insert_backend b s).backends
        × ((name : String)
            → averages (insert_backend b s) name
              ≡ (if str_eq (to_string b) name then some (new_entry b) else averages s name))
  unfolding insert_backend new_entry
  insert_average b s l o fresh = (
    Insertion.Linked-push heap name_of s.handle_pool (new_entry b) s.backends fresh l,
    heap.Ordered_push (new_entry b) s.backends o,
    Insertion.entry-push heap name_of s.handle_pool (new_entry b) s.backends fresh l,
  )

  pub exclude_found :
      (b : Backend) (k : heap.Handle) (s : LeastResponseTime)
      → Assoc.find (to_string b) s.handle_pool ≡ some k
      → exclude_backend b s ≡ drop_entry (to_string b) k s
  unfolding exclude_backend
  exclude_found b k s e = rw (e, exclude_backend)

  pub exclude_missing :
      (b : Backend) (s : LeastResponseTime)
      → Assoc.find (to_string b) s.handle_pool ≡ none
      → exclude_backend b s ≡ (s, ok tt)
  unfolding exclude_backend
  exclude_missing b s e = rw (e, exclude_backend)

  -- After ExcludeBackend of a linked least-response-time selector with its heap in order the
  -- backend has no entry, the other entries are as before, pool and heap are linked, and the heap
  -- is in order.
  pub exclude_average :
      (b : Backend) (s : LeastResponseTime)
      → Linked s
      → heap.Ordered s.backends
      → let t = (exclude_backend b s).0 in
        ((name : String)
          → averages t name ≡ (if str_eq (to_string b) name then none else averages s name))
        × Linked t
        × heap.Ordered t.backends
  unfolding drop_entry
  exclude_average b s l o = elim (Option-cases (Assoc.find (to_string b) s.handle_pool)) [
    | inl e ↦
        rw (exclude_missing b s e) (
          λ name. Pool.entry-absent heap name_of s.handle_pool s.backends (to_string b) name e,
          l,
          o,
        )
    | inr (k, e) ↦
        rw (exclude_found b k s e, drop_entry)
          (
            Erasure.entry-erase heap name_of s.handle_pool (to_string b) k s.backends e l,
            Erasure.Linked-erase heap name_of s.handle_pool (to_string b) k s.backends e l,
            heap.Ordered_erase k s.backends o,
          )
  ]

  -- ExcludeBackend throws exactly when it excludes the last entry.
  pub exclude_average_throws_iff :
      (b : Backend) (s : LeastResponseTime) (w : AverageTimeWrapper)
      → Linked s
      → averages s (to_string b) ≡ some w
      → ((exclude_backend b s).1 ≡ throws all_excluded)
        ↔ ((name : String) → averages (exclude_backend b s).0 name ≡ none)
  unfolding drop_entry
  exclude_average_throws_iff b s w l there =
      let (k, e, at_k) =
        Pool.entry-some heap name_of s.handle_pool s.backends (to_string b) w there in
      let both =
        Pool.empty_iff heap name_of (Assoc.erase (to_string b) s.handle_pool)
          (heap.erase k s.backends)
          (Erasure.Linked-erase heap name_of s.handle_pool (to_string b) k s.backends e l) in
      rw (exclude_found b k s e)
        (λ thrown. both.0 (Pool.throws_if _ thrown), λ all. rw (both.1 all))
