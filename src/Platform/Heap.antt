-- ===== src/Platform/Heap.antt =====
-- boost::heap::pairing_heap, as its documentation describes it.
use lb.Common.{Bool, true, false, ◌≡◌, ◌≢◌, Option, none, some}

-- A heap of `T` with boost::heap::compare<less>; its top is an element below which, by `less`, no
-- other stands. `at k h` is the element of a handle that is valid, `put` an assignment to it that
-- leaves the heap's structure as it is. `increase` and `decrease` mend the order after such an
-- assignment, the one if the element has not become less, the other if it has not become greater.
pub record PairingHeap (T : Type 0) (less : T → T → Bool) : Type 1 where
  pub Heap : Type 0
  pub Handle : Type 0
  pub Handle_discrete : Discrete Handle
  pub empty : Heap
  pub push : T → Heap → Heap
  pub pushed : T → Heap → Handle
  pub top : Heap → Option T
  pub at : Handle → Heap → Option T
  pub put : Handle → T → Heap → Heap
  pub increase : Handle → Heap → Heap
  pub decrease : Handle → Heap → Heap
  pub erase : Handle → Heap → Heap
  pub is_empty : Heap → Bool
  pub Ordered : Heap → Type 0
  pub at_empty : (k : Handle) → at k empty ≡ none
  pub at_pushed : (t : T) (h : Heap) → at (pushed t h) (push t h) ≡ some t
  pub at_push : (t : T) (h : Heap) (k : Handle) → k ≢ pushed t h → at k (push t h) ≡ at k h
  pub pushed_fresh : (t : T) (h : Heap) → at (pushed t h) h ≡ none
  pub at_put_self : (k : Handle) (t u : T) (h : Heap) → at k h ≡ some u → at k (put k t h) ≡ some t
  pub at_put_ne : (k j : Handle) (t : T) (h : Heap) → j ≢ k → at j (put k t h) ≡ at j h
  pub at_increase : (k j : Handle) (h : Heap) → at j (increase k h) ≡ at j h
  pub at_decrease : (k j : Handle) (h : Heap) → at j (decrease k h) ≡ at j h
  pub at_erase_self : (k : Handle) (h : Heap) → at k (erase k h) ≡ none
  pub at_erase_ne : (k j : Handle) (h : Heap) → j ≢ k → at j (erase k h) ≡ at j h
  pub top_at : (h : Heap) (t : T) → top h ≡ some t → (k : Handle) × (at k h ≡ some t)
  pub top_none : (h : Heap) (k : Handle) → top h ≡ none → at k h ≡ none
  pub top_greatest :
      (h : Heap) (t u : T) (k : Handle)
      → Ordered h
      → top h ≡ some t
      → at k h ≡ some u
      → less t u ≡ false
  pub is_empty_none : (h : Heap) (k : Handle) → is_empty h ≡ true → at k h ≡ none
  pub is_empty_some : (h : Heap) → is_empty h ≡ false → (k : Handle) × (t : T) × (at k h ≡ some t)
  pub Ordered_empty : Ordered empty
  pub Ordered_push : (t : T) (h : Heap) → Ordered h → Ordered (push t h)
  pub Ordered_erase : (k : Handle) (h : Heap) → Ordered h → Ordered (erase k h)
  pub Ordered_increase :
      (k : Handle) (old t : T) (h : Heap)
      → Ordered h
      → at k h ≡ some old
      → less t old ≡ false
      → Ordered (increase k (put k t h))
  pub Ordered_decrease :
      (k : Handle) (old t : T) (h : Heap)
      → Ordered h
      → at k h ≡ some old
      → less old t ≡ false
      → Ordered (decrease k (put k t h))
