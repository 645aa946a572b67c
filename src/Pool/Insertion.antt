-- ===== src/Pool/Insertion.antt =====
-- The map after an element has been pushed, in the manner of the InsertBackend methods.
use lb.Common.{
  String, Bool, false, ◌≡◌, ◌≢◌, sym, ap, ◌∙◌, ◌⊎◌, inl, inr, List, none, some, str_eq, eq_iff,
  if◌then◌else◌, Bool-cases, Option-cases, some_injective,
}
use lb.Common.Assoc
use lb.Common.Assoc.{find-assign, find-erase}
use lb.Platform.Heap.{PairingHeap}
use lb.Pool

module _ {T : Type 0} {less : T → T → Bool} (heap : PairingHeap T less) (name : T → String) where
  module _ (pool : List (String × heap.Handle)) (t : T) (h : heap.Heap)
      (fresh : Assoc.find (name t) pool ≡ none) (l : Pool.Linked heap name pool h) where
    not_pushed : (k : heap.Handle) (u : T) → heap.at k h ≡ some u → k ≢ heap.pushed t h
    not_pushed k u at_k p =
        Pool.some≢none u (sym (heap.pushed_fresh t h) ∙ ap (λ i. heap.at i h) (sym p) ∙ at_k)

    apart :
        (key : String) (k : heap.Handle)
        → Assoc.find key pool ≡ some k
        → str_eq (name t) key ≡ false
    apart key k e = elim (Bool-cases (str_eq (name t) key)) [
      | inl same ↦ absurd (Pool.some≢none k (sym (rw (← (eq_iff (name t) key).0 same) fresh) ∙ e))
      | inr differ ↦ differ
    ]

    pub Linked-push :
        Pool.Linked heap name (Assoc.assign (name t) (heap.pushed t h) pool) (heap.push t h)
    Linked-push = record { live = live; pooled = pooled }
      where
        live :
            (key : String) (k : heap.Handle)
            → Assoc.find key (Assoc.assign (name t) (heap.pushed t h) pool) ≡ some k
            → (u : T) × (heap.at k (heap.push t h) ≡ some u) × (name u ≡ key)
        live key k e = elim (Bool-cases (str_eq (name t) key)) [
          | inl same ↦
              let found : heap.pushed t h ≡ k =
                some_injective (rw (find-assign (name t) key (heap.pushed t h) pool, same) at e) in
              (t, rw (← found) (heap.at_pushed t h), (eq_iff (name t) key).0 same)
          | inr differ ↦
              let (u, at_k, named) =
                l.live key k (rw (find-assign (name t) key (heap.pushed t h) pool, differ) at e) in
              (u, heap.at_push t h k (not_pushed k u at_k) ∙ at_k, named)
        ]

        pooled :
            (k : heap.Handle) (u : T)
            → heap.at k (heap.push t h) ≡ some u
            → Assoc.find (name u) (Assoc.assign (name t) (heap.pushed t h) pool) ≡ some k
        pooled k u e = elim (heap.Handle_discrete k (heap.pushed t h)) [
          | yes p ↦
              let same : t ≡ u =
                some_injective
                  (sym (heap.at_pushed t h) ∙ ap (λ i. heap.at i (heap.push t h)) (sym p) ∙ e) in
              rw (
                find-assign (name t) (name u) (heap.pushed t h) pool,
                (eq_iff (name t) (name u)).1 (ap name same),
                p,
              )
          | no ne ↦
              let found = l.pooled k u (sym (heap.at_push t h k ne) ∙ e) in
              rw (find-assign (name t) (name u) (heap.pushed t h) pool, apart (name u) k found)
                found
        ]

    pub entry-push :
        (key : String)
        → Pool.entry heap name (Assoc.assign (name t) (heap.pushed t h) pool) (heap.push t h) key
          ≡ (if str_eq (name t) key then some t else Pool.entry heap name pool h key)
    entry-push key = elim (Bool-cases (str_eq (name t) key)) [
      | inl same ↦
          rw (same, find-assign (name t) key (heap.pushed t h) pool, same) (heap.at_pushed t h)
      | inr differ ↦
          rw (differ, find-assign (name t) key (heap.pushed t h) pool, differ)
            (elsewhere (Option-cases (Assoc.find key pool)))
    ]
      where
        elsewhere :
            (Assoc.find key pool ≡ none) ⊎ ((k : heap.Handle) × (Assoc.find key pool ≡ some k))
            → Pool.entry_of heap name (Assoc.find key pool) (heap.push t h)
              ≡ Pool.entry heap name pool h key
        elsewhere (inl e) = rw e
        elsewhere (inr (k, e)) =
            let (u, at_k, named) = l.live key k e in rw e (heap.at_push t h k (not_pushed k u at_k))
