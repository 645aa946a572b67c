-- ===== src/Pool/Replacement.antt =====
-- The map after an element has been replaced.
use lb.Common.{
  String, Bool, false, ◌≡◌, ◌≢◌, sym, ap, subst, ◌∙◌, ◌⊎◌, inl, inr, List, none, some, str_eq,
  eq_iff, if◌then◌else◌, Bool-cases, Option-cases,
}
use lb.Common.Assoc
use lb.Common.Assoc.{find-assign, find-erase}
use lb.Platform.Heap.{PairingHeap}
use lb.Pool

module _ {T : Type 0} {less : T → T → Bool} (heap : PairingHeap T less) (name : T → String) where
  pub Replaced-decrease :
      (k : heap.Handle) (old new : T) (h : heap.Heap)
      → heap.at k h ≡ some old
      → Pool.Replaced heap name k new h (heap.decrease k (heap.put k new h))
  Replaced-decrease k old new h at_k = record {
    at_self = heap.at_decrease k k (heap.put k new h) ∙ heap.at_put_self k new old h at_k;
    at_ne = λ j ne. heap.at_decrease k j (heap.put k new h) ∙ heap.at_put_ne k j new h ne;
  }

  pub Replaced-increase :
      (k : heap.Handle) (old new : T) (h : heap.Heap)
      → heap.at k h ≡ some old
      → Pool.Replaced heap name k new h (heap.increase k (heap.put k new h))
  Replaced-increase k old new h at_k = record {
    at_self = heap.at_increase k k (heap.put k new h) ∙ heap.at_put_self k new old h at_k;
    at_ne = λ j ne. heap.at_increase k j (heap.put k new h) ∙ heap.at_put_ne k j new h ne;
  }

  module _ (pool : List (String × heap.Handle)) (k : heap.Handle) (old new : T) (h h' : heap.Heap)
      (at_k : heap.at k h ≡ some old) (r : Pool.Replaced heap name k new h h')
      (l : Pool.Linked heap name pool h) where
    pub Linked-replaced : name new ≡ name old → Pool.Linked heap name pool h'
    Linked-replaced same_name = record { live = live; pooled = pooled }
      where
        live :
            (key : String) (j : heap.Handle)
            → Assoc.find key pool ≡ some j
            → (t : T) × (heap.at j h' ≡ some t) × (name t ≡ key)
        live key j e =
            let (t, at_j, named) = l.live key j e in
            elim (heap.Handle_discrete j k) [
              | yes p ↦ (
                new,
                ap (λ i. heap.at i h') p ∙ r.at_self,
                same_name
                    ∙ ap name (sym (Pool.same_element heap name h j k t old at_j at_k p))
                    ∙ named,
              )
              | no ne ↦ (t, r.at_ne j ne ∙ at_j, named)
            ]

        pooled :
            (j : heap.Handle) (t : T) → heap.at j h' ≡ some t → Assoc.find (name t) pool ≡ some j
        pooled j t e = elim (heap.Handle_discrete j k) [
          | yes p ↦
              let same : t ≡ new = Pool.same_element heap name h' j k t new e r.at_self p in
              rw (p, same, same_name) (l.pooled k old at_k)
          | no ne ↦ l.pooled j t (sym (r.at_ne j ne) ∙ e)
        ]

    pub entry-replaced :
        (key : String)
        → Pool.entry heap name pool h' key
          ≡ (if str_eq (name old) key then some new else Pool.entry heap name pool h key)
    entry-replaced key = elim (Bool-cases (str_eq (name old) key)) [
      | inl same ↦ rw same (
          Pool.entry-found heap name pool h' key k new
            (subst (λ t. Assoc.find t pool ≡ some k) ((eq_iff (name old) key).0 same)
              (l.pooled k old at_k))
            r.at_self)
      | inr differ ↦ rw differ (elsewhere differ (Option-cases (Assoc.find key pool)))
    ]
      where
        elsewhere :
            str_eq (name old) key ≡ false
            → (Assoc.find key pool ≡ none) ⊎ ((j : heap.Handle) × (Assoc.find key pool ≡ some j))
            → Pool.entry heap name pool h' key ≡ Pool.entry heap name pool h key
        elsewhere differ (inl e) = rw e
        elsewhere differ (inr (j, e)) =
            let (t, at_j, named) = l.live key j e in
            let ne : j ≢ k = λ p.
              (let test =
                  (eq_iff (name old) key).1
                    (ap name (sym (Pool.same_element heap name h j k t old at_j at_k p)) ∙ named) in
                cc) in
            rw e (r.at_ne j ne)
