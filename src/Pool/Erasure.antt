-- ===== src/Pool/Erasure.antt =====
-- The map after an element has been erased, in the manner of the ExcludeBackend methods.
use lb.Common.{
  String, Bool, false, ◌≡◌, ◌≢◌, sym, ap, ◌∙◌, ◌⊎◌, inl, inr, List, none, some, str_eq, eq_iff,
  if◌then◌else◌, Bool-cases, Option-cases, some_injective,
}
use lb.Common.Assoc
use lb.Common.Assoc.{find-assign, find-erase}
use lb.Platform.Heap.{PairingHeap}
use lb.Pool

module _ {T : Type 0} {less : T → T → Bool} (heap : PairingHeap T less) (name : T → String) where
  module _ (pool : List (String × heap.Handle)) (key : String) (k : heap.Handle) (h : heap.Heap)
      (found : Assoc.find key pool ≡ some k) (l : Pool.Linked heap name pool h) where
    -- Another name has another handle.
    other_handle :
        (name' : String) (j : heap.Handle)
        → Assoc.find name' pool ≡ some j
        → str_eq key name' ≡ false
        → j ≢ k
    other_handle name' j e differ p =
        let (t, at_j, named) = l.live name' j e in
        let (u, at_k, named') = l.live key k found in
        let test = (eq_iff key name').1 (
          sym named' ∙ ap name (sym (Pool.same_element heap name h j k t u at_j at_k p)) ∙ named) in
        cc

    pub Linked-erase : Pool.Linked heap name (Assoc.erase key pool) (heap.erase k h)
    Linked-erase = record { live = live; pooled = pooled }
      where
        live :
            (name' : String) (j : heap.Handle)
            → Assoc.find name' (Assoc.erase key pool) ≡ some j
            → (t : T) × (heap.at j (heap.erase k h) ≡ some t) × (name t ≡ name')
        live name' j e = elim (Bool-cases (str_eq key name')) [
          | inl same ↦ absurd (Pool.some≢none j (rw (find-erase key name' pool, same) at e))
          | inr differ ↦
              let e' = rw (find-erase key name' pool, differ) at e in
              let (t, at_j, named) = l.live name' j e' in
              (t, heap.at_erase_ne k j h (other_handle name' j e' differ) ∙ at_j, named)
        ]

        pooled :
            (j : heap.Handle) (t : T)
            → heap.at j (heap.erase k h) ≡ some t
            → Assoc.find (name t) (Assoc.erase key pool) ≡ some j
        pooled j t e = elim (heap.Handle_discrete j k) [
          | yes p ↦ absurd (
              Pool.some≢none t
                (sym (heap.at_erase_self k h) ∙ ap (λ i. heap.at i (heap.erase k h)) (sym p) ∙ e))
          | no ne ↦
              let e' = l.pooled j t (sym (heap.at_erase_ne k j h ne) ∙ e) in
              elim (Bool-cases (str_eq key (name t))) [
                | inl same ↦
                    absurd
                      (ne (some_injective (sym e' ∙ rw (← (eq_iff key (name t)).0 same) found)))
                | inr differ ↦ rw (find-erase key (name t) pool, differ) e'
              ]
        ]

    pub entry-erase :
        (name' : String)
        → Pool.entry heap name (Assoc.erase key pool) (heap.erase k h) name'
          ≡ (if str_eq key name' then none else Pool.entry heap name pool h name')
    entry-erase name' = elim (Bool-cases (str_eq key name')) [
      | inl same ↦ rw (same, find-erase key name' pool, same)
      | inr differ ↦
          rw (differ, find-erase key name' pool, differ)
            (elsewhere differ (Option-cases (Assoc.find name' pool)))
    ]
      where
        elsewhere :
            str_eq key name' ≡ false
            → (Assoc.find name' pool ≡ none)
              ⊎ ((j : heap.Handle) × (Assoc.find name' pool ≡ some j))
            → Pool.entry_of heap name (Assoc.find name' pool) (heap.erase k h)
              ≡ Pool.entry heap name pool h name'
        elsewhere differ (inl e) = rw e
        elsewhere differ (inr (j, e)) =
            rw e (heap.at_erase_ne k j h (other_handle name' j e differ))
