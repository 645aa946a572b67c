-- ===== src/LeastConnections/Membership.antt =====
-- What InsertBackend and ExcludeBackend of the least-connections selector do to the counts.
use mathlib.Core.Option
use lb.Common.{
  ℕ, String, ◌≡◌, refl, ap, ◌∙◌, ◌↔◌, Option, none, some, ok, throws, all_excluded, str_eq,
  if◌then◌else◌, Option-cases, inl, inr,
}
use lb.Common.Assoc
use lb.Platform.{Asio}
use lb.Platform.Heap.{PairingHeap}
use lb.Pool
use lb.Pool.Insertion
use lb.Pool.Erasure
use lb.Backend.{Backend, to_string}
use lb.LeastConnections.{
  CounterWrapper, connections_compare, LeastConnections, initial, insert_backend, drop_entry,
  exclude_backend,
}
use lb.LeastConnections.Selection.{counted}
use lb.LeastConnections.Counts.{Linked, connections, name_of, counter_of, map-if}

pub none_mapped : {A B : Type 0} (f : A → B) (o : Option A) → Option.map f o ≡ none → o ≡ none
none_mapped f none e = refl
none_mapped f (some a) e = cc

module _ ⦃asio : Asio⦄ ⦃heap : PairingHeap CounterWrapper connections_compare⦄ where
  pub initial-Linked : Linked initial
  unfolding initial
  initial-Linked = Pool.Linked-empty heap name_of

  -- InsertBackend of a name that is new to a linked least-connections selector with its heap in
  -- order counts 0 connections for it, leaves the other counts, and keeps pool and heap linked and
  -- the heap in order.
  pub insert_lem :
      (b : Backend) (s : LeastConnections)
      → Linked s
      → heap.Ordered s.backends
      → Assoc.find (to_string b) s.handle_pool ≡ none
      → Linked (insert_backend b s)
        × heap.Ordered (insert_backend b s).backends
        × ((name : String)
            → connections (insert_backend b s) name
              ≡ (if str_eq (to_string b) name then some 0 else connections s name))
  unfolding insert_backend
  insert_lem b s l o fresh =
      let w : CounterWrapper = record { b = b; counter = 0 } in
      (
        Insertion.Linked-push heap name_of s.handle_pool w s.backends fresh l,
        heap.Ordered_push w s.backends o,
        λ name.
            ap (Option.map counter_of)
              (Insertion.entry-push heap name_of s.handle_pool w s.backends fresh l name)
            ∙ map-if counter_of (str_eq (to_string b) name) (some w)
                (Pool.entry heap name_of s.handle_pool s.backends name),
      )

  pub exclude_found :
      (b : Backend) (k : heap.Handle) (s : LeastConnections)
      → Assoc.find (to_string b) s.handle_pool ≡ some k
      → exclude_backend b s ≡ drop_entry (to_string b) k s
  unfolding exclude_backend
  exclude_found b k s e = rw (e, exclude_backend)

  pub exclude_missing :
      (b : Backend) (s : LeastConnections)
      → Assoc.find (to_string b) s.handle_pool ≡ none
      → exclude_backend b s ≡ (s, ok tt)
  unfolding exclude_backend
  exclude_missing b s e = rw (e, exclude_backend)

  -- ExcludeBackend of a linked least-connections selector takes the count of the backend out, leaves
  -- the other counts, and keeps pool and heap linked.
  pub exclude_counts :
      (b : Backend) (s : LeastConnections)
      → Linked s
      → let t = (exclude_backend b s).0 in
        ((name : String)
          → connections t name ≡ (if str_eq (to_string b) name then none else connections s name))
        × Linked t
  unfolding drop_entry
  exclude_counts b s l = elim (Option-cases (Assoc.find (to_string b) s.handle_pool)) [
    | inl e ↦ rw (exclude_missing b s e) (
      λ name.
          ap (Option.map counter_of)
            (Pool.entry-absent heap name_of s.handle_pool s.backends (to_string b) name e)
          ∙ map-if counter_of (str_eq (to_string b) name) none
              (Pool.entry heap name_of s.handle_pool s.backends name),
      l,
    )
    | inr (k, e) ↦
        rw (exclude_found b k s e, drop_entry)
          (
            λ name.
                ap (Option.map counter_of) (
                  Erasure.entry-erase heap name_of s.handle_pool (to_string b) k s.backends e l
                    name)
                ∙ map-if counter_of (str_eq (to_string b) name) none
                    (Pool.entry heap name_of s.handle_pool s.backends name),
            Erasure.Linked-erase heap name_of s.handle_pool (to_string b) k s.backends e l,
          )
  ]

  Ordered-exclude :
      (b : Backend) (s : LeastConnections)
      → heap.Ordered s.backends
      → heap.Ordered (exclude_backend b s).0.backends
  unfolding drop_entry
  Ordered-exclude b s o = elim (Option-cases (Assoc.find (to_string b) s.handle_pool)) [
    | inl e ↦ rw (exclude_missing b s e) o
    | inr (k, e) ↦ rw (exclude_found b k s e, drop_entry) (heap.Ordered_erase k s.backends o)
  ]

  -- After ExcludeBackend of a linked least-connections selector with its heap in order nothing is
  -- counted for the backend, the other counts are as before, pool and heap are linked, and the heap
  -- is in order.
  pub exclude_lem :
      (b : Backend) (s : LeastConnections)
      → Linked s
      → heap.Ordered s.backends
      → let t = (exclude_backend b s).0 in
        ((name : String)
          → connections t name ≡ (if str_eq (to_string b) name then none else connections s name))
        × Linked t
        × heap.Ordered t.backends
  exclude_lem b s l o =
      let (counts, linked) = exclude_counts b s l in (counts, linked, Ordered-exclude b s o)

  -- ExcludeBackend of a backend that a linked least-connections selector counts throws exactly when
  -- nothing is counted afterwards.
  pub exclude_throws_iff :
      (b : Backend) (s : LeastConnections) (n : ℕ)
      → Linked s
      → connections s (to_string b) ≡ some n
      → ((exclude_backend b s).1 ≡ throws all_excluded)
        ↔ ((name : String) → connections (exclude_backend b s).0 name ≡ none)
  unfolding drop_entry
  exclude_throws_iff b s n l has_count =
      let (k, w, e, at_k, m) = counted s (to_string b) n has_count in
      let linked = Erasure.Linked-erase heap name_of s.handle_pool (to_string b) k s.backends e l in
      let both =
        Pool.empty_iff heap name_of (Assoc.erase (to_string b) s.handle_pool)
          (heap.erase k s.backends) linked in
      rw (exclude_found b k s e) (
        λ thrown name. ap (Option.map counter_of) (both.0 (Pool.throws_if _ thrown) name),
        λ all. rw (both.1 (λ name. none_mapped counter_of _ (all name))),
      )
