-- ===== src/Pool.antt =====
-- What the selectors with a heap share: the pool of handles, `handle_pool_`, and the heap,
-- `backends_`, seen as one map from names to elements.
pub mod Replacement
pub mod Insertion
pub mod Erasure
pub mod Size
use lb.Common.{
  String, Bool, true, false, ◌≡◌, ◌≢◌, refl, sym, ap, subst, ◌∙◌, ◌⊎◌, ◌↔◌, inl, inr, List, [],
  Option, none, some, Outcome, ok, throws, all_excluded, str_eq, eq_iff, if◌then◌else◌, Bool-cases,
  Option-cases, some_injective,
}
use lb.Common.Assoc
use lb.Common.Assoc.{find-assign, find-erase}
use lb.Platform.Heap.{PairingHeap}

pub throws_if :
    (t : Bool)
    → ◌≡◌ {A = Outcome (Unit {0})} (if t then throws all_excluded else ok tt) (throws all_excluded)
    → t ≡ true
throws_if true e = refl
throws_if false e = cc

pub some≢none : {A : Type 0} (a : A) → ◌≡◌ {A = Option A} none (some a) → ⊥
some≢none a p = cc

module _ {T : Type 0} {less : T → T → Bool} (heap : PairingHeap T less) (name : T → String) where
  -- The pool holds, under its name, exactly the handle of each element of the heap.
  pub record Linked (pool : List (String × heap.Handle)) (h : heap.Heap) : Type 0 where
    pub live :
        (key : String) (k : heap.Handle)
        → Assoc.find key pool ≡ some k
        → (t : T) × (heap.at k h ≡ some t) × (name t ≡ key)
    pub pooled :
        (k : heap.Handle) (t : T) → heap.at k h ≡ some t → Assoc.find (name t) pool ≡ some k

  -- Only the element of the handle `k` is another one, `new`.
  pub record Replaced (k : heap.Handle) (new : T) (h h' : heap.Heap) : Type 0 where
    pub at_self : heap.at k h' ≡ some new
    pub at_ne : (j : heap.Handle) → j ≢ k → heap.at j h' ≡ heap.at j h

  abbrev pub entry_of : Option heap.Handle → heap.Heap → Option T
  entry_of none h = none
  entry_of (some k) h = heap.at k h

  -- The element of a name.
  abbrev pub entry : List (String × heap.Handle) → heap.Heap → String → Option T
  entry pool h key = entry_of (Assoc.find key pool) h

  -- Two handles of one element's name are one.
  pub same_element :
      (h : heap.Heap) (j k : heap.Handle) (t u : T)
      → heap.at j h ≡ some t
      → heap.at k h ≡ some u
      → j ≡ k
      → t ≡ u
  same_element h j k t u at_j at_k p = some_injective (sym at_j ∙ ap (λ i. heap.at i h) p ∙ at_k)

  pub entry-found :
      (pool : List (String × heap.Handle)) (h : heap.Heap) (key : String) (k : heap.Handle) (t : T)
      → Assoc.find key pool ≡ some k
      → heap.at k h ≡ some t
      → entry pool h key ≡ some t
  entry-found pool h key k t e at_k = rw e at_k

  -- What an entry is where it is one.
  pub entry-some :
      (pool : List (String × heap.Handle)) (h : heap.Heap) (key : String) (t : T)
      → entry pool h key ≡ some t
      → (k : heap.Handle) × (Assoc.find key pool ≡ some k) × (heap.at k h ≡ some t)
  entry-some pool h key t e = elim (Option-cases (Assoc.find key pool)) [
    | inl gone ↦ absurd (some≢none t (rw gone at e))
    | inr (k, found) ↦ (k, found, rw found at e)
  ]

  pub Linked-empty : Linked [] heap.empty
  unfolding Assoc.find
  Linked-empty = record {
    live = λ key k e. absurd (some≢none k (rw nothing at e));
    pooled = λ k t e. absurd (some≢none t (sym (heap.at_empty k) ∙ e));
  }
    where
      nothing : (key : String) → Assoc.find {V = heap.Handle} key [] ≡ none
      nothing key = refl

  -- The absence of a name is no change of the map.
  pub entry-absent :
      (pool : List (String × heap.Handle)) (h : heap.Heap) (key name' : String)
      → Assoc.find key pool ≡ none
      → entry pool h name' ≡ (if str_eq key name' then none else entry pool h name')
  entry-absent pool h key name' e = elim (Bool-cases (str_eq key name')) [
    | inl same ↦ rw same (
        let gone : Assoc.find name' pool ≡ none = rw (← (eq_iff key name').0 same) e in
        ap (λ (o : Option heap.Handle). entry_of o h) gone)
    | inr differ ↦ rw differ
  ]

  -- The heap is empty exactly when no name has an element.
  pub empty_iff :
      (pool : List (String × heap.Handle)) (h : heap.Heap)
      → Linked pool h
      → (heap.is_empty h ≡ true) ↔ ((key : String) → entry pool h key ≡ none)
  empty_iff pool h l = (
    nothing,
    elim (Bool-cases (heap.is_empty h)) [
      | inl e ↦ λ _. e
      | inr e ↦ λ all.
          let (k, t, at_k) = heap.is_empty_some h e in
          absurd (
            some≢none t
              (sym (all (name t)) ∙ entry-found pool h (name t) k t (l.pooled k t at_k) at_k))
    ],
  )
    where
      none_at : heap.is_empty h ≡ true → (o : Option heap.Handle) → entry_of o h ≡ none
      none_at e none = refl
      none_at e (some k) = heap.is_empty_none h k e

      nothing : heap.is_empty h ≡ true → (key : String) → entry pool h key ≡ none
      nothing e key = none_at e (Assoc.find key pool)
