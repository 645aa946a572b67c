-- ===== src/Pool/Size.antt =====
-- How many names the pool of handles of src/lb/tcp/selectors.cpp holds, beside what the heap holds.
use lb.Common.{
  ◌<◌, ◌≤◌, String, Bool, ◌≡◌, refl, sym, ◌∙◌, List, [], ◌∷◌, some, ◌⊎◌, inl, inr, arith, length,
  str_eq, eq_iff, if◌then◌else◌, Bool-cases, Option-cases, Outcome, ok, throws, all_excluded,
}
use lb.Common.Assoc
use lb.Platform.Heap.{PairingHeap}
use lb.Pool
use lb.Pool.Erasure

module _ {V : Type 0} where
  length-erase-le : (key : String) (m : List (String × V)) → length (Assoc.erase key m) ≤ length m
  unfolding Assoc.erase
  length-erase-le key [] = omega arith
  length-erase-le key ((j, w) ∷ m) = ground (arith, length-erase-le key m)

  length-erase-lt :
      (key : String) (m : List (String × V)) (v : V)
      → Assoc.find key m ≡ some v
      → length (Assoc.erase key m) < length m
  unfolding Assoc.erase Assoc.find
  length-erase-lt key [] v e = cc
  length-erase-lt key ((j, w) ∷ m) v e = elim (Bool-cases (str_eq j key)) [
    | inl same ↦ rw same (omega (arith, length-erase-le key m))
    | inr differ ↦ rw differ (omega (arith, length-erase-lt key m v (rw differ at e)))
  ]

  find-first :
      (m : List (String × V))
      → 0 < length m
      → (key : String) × (v : V) × (Assoc.find key m ≡ some v)
  unfolding Assoc.find
  find-first [] pos = absurd (omega arith)
  find-first ((j, w) ∷ m) pos = (j, w, rw ((eq_iff j j).1 refl))

  length-found :
      (key : String) (m : List (String × V)) (v : V) → Assoc.find key m ≡ some v → 0 < length m
  unfolding Assoc.find
  length-found key [] v e = cc
  length-found key (x ∷ m) v e = omega arith

module _ {T : Type 0} {less : T → T → Bool} (heap : PairingHeap T less) (name : T → String) where
  -- Where the pool holds a name, the heap has a top, under the handle of its name.
  pub top-Linked :
      (pool : List (String × heap.Handle)) (h : heap.Heap)
      → Pool.Linked heap name pool h
      → 0 < length pool
      → (t : T) × (k : heap.Handle) × (heap.top h ≡ some t)
        × (heap.at k h ≡ some t)
        × (Assoc.find (name t) pool ≡ some k)
  top-Linked pool h l pos = elim (Option-cases (heap.top h)) [
    | inl empty ↦
        let (key, k, found) = find-first pool pos in
        let (t, at_k, named) = l.live key k found in
        absurd (Pool.some≢none t (sym (heap.top_none h k empty) ∙ at_k))
    | inr (t, is_top) ↦
        let (k, at_k) = heap.top_at h t is_top in (t, k, is_top, at_k, l.pooled k t at_k)
  ]

  -- How the exclusion of a name ends that the pool holds, in the manner of the ExcludeBackend methods.
  pub erased :
      (pool : List (String × heap.Handle)) (key : String) (k : heap.Handle) (h : heap.Heap)
      → Assoc.find key pool ≡ some k
      → Pool.Linked heap name pool h
      → let left = heap.erase k h in
        let pool' = Assoc.erase key pool in
        let end : Outcome (Unit {0}) = if heap.is_empty left then throws all_excluded else ok tt in
        (end ≡ throws all_excluded)
        ⊎ ((end ≡ ok tt)
            × Pool.Linked heap name pool' left
            × (0 < length pool')
            × (length pool' < length pool))
  erased pool key k h found l = elim (Bool-cases (heap.is_empty (heap.erase k h))) [
    | inl e ↦ inl (rw e)
    | inr e ↦
        let linked = Erasure.Linked-erase heap name pool key k h found l in
        let (j, t, at_j) = heap.is_empty_some (heap.erase k h) e in
        inr (
          rw e,
          linked,
          length-found (name t) (Assoc.erase key pool) j (linked.pooled j t at_j),
          length-erase-lt key pool k found,
        )
  ]
