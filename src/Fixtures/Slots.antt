-- ===== src/Fixtures/Slots.antt =====
-- A list of slots, whose indices are the handles of a heap: a stand-in for the tests.

use lb.Common.{
  ℕ, zero, suc, ◌≤◌, Bool, true, false, ◌≡◌, ◌≢◌, refl, ap, ◌∙◌, List, [], ◌∷◌, ◌++◌, Option, none,
  some, arith, ltb, ◌==◌, if◌then◌else◌, Bool-cases, inl, inr,
}
use lb.Platform.Heap.{PairingHeap}

module _ {T : Type 0} where
  abbrev slot : ℕ → List (Option T) → Option T
  slot k [] = none
  slot zero (o ∷ os) = o
  slot (suc k) (o ∷ os) = slot k os

  abbrev place : ℕ → Option T → List (Option T) → List (Option T)
  place k o [] = []
  place zero o (x ∷ os) = o ∷ os
  place (suc k) o (x ∷ os) = x ∷ place k o os

  abbrev behind : List (Option T) → ℕ
  behind [] = 0
  behind (o ∷ os) = suc (behind os)

  abbrev vacant : List (Option T) → Bool
  vacant [] = true
  vacant (none ∷ os) = vacant os
  vacant (some t ∷ os) = false

  pub slot_pushed : (t : T) (os : List (Option T)) → slot (behind os) (os ++ some t ∷ []) ≡ some t
  slot_pushed t [] = refl
  slot_pushed t (o ∷ os) = slot_pushed t os

  pub slot_push :
      (t : T) (os : List (Option T)) (k : ℕ)
      → k ≢ behind os
      → slot k (os ++ some t ∷ []) ≡ slot k os
  slot_push t [] zero ne = absurd (ne refl)
  slot_push t [] (suc k) ne = refl
  slot_push t (o ∷ os) zero ne = refl
  slot_push t (o ∷ os) (suc k) ne = slot_push t os k (λ e. ne (ap suc e))

  pub slot-behind : (os : List (Option T)) → slot (behind os) os ≡ none
  slot-behind [] = refl
  slot-behind (o ∷ os) = slot-behind os

  pub slot-place :
      (k : ℕ) (t u : T) (os : List (Option T))
      → slot k os ≡ some u
      → slot k (place k (some t) os) ≡ some t
  slot-place k t u [] e = cc
  slot-place zero t u (o ∷ os) e = refl
  slot-place (suc k) t u (o ∷ os) e = slot-place k t u os e

  pub slot_cleared : (k : ℕ) (os : List (Option T)) → slot k (place k none os) ≡ none
  slot_cleared k [] = refl
  slot_cleared zero (o ∷ os) = refl
  slot_cleared (suc k) (o ∷ os) = slot_cleared k os

  pub slot-place_ne :
      (k j : ℕ) (x : Option T) (os : List (Option T)) → j ≢ k → slot j (place k x os) ≡ slot j os
  slot-place_ne k j x [] ne = refl
  slot-place_ne zero zero x (o ∷ os) ne = absurd (ne refl)
  slot-place_ne zero (suc j) x (o ∷ os) ne = refl
  slot-place_ne (suc k) zero x (o ∷ os) ne = refl
  slot-place_ne (suc k) (suc j) x (o ∷ os) ne = slot-place_ne k j x os (λ e. ne (ap suc e))

  pub slot-vacant : (os : List (Option T)) (k : ℕ) → vacant os ≡ true → slot k os ≡ none
  slot-vacant [] k e = refl
  slot-vacant (none ∷ os) zero e = refl
  slot-vacant (none ∷ os) (suc k) e = slot-vacant os k e
  slot-vacant (some t ∷ os) k e = cc

  pub slot_taken :
      (os : List (Option T)) → vacant os ≡ false → (k : ℕ) × (t : T) × (slot k os ≡ some t)
  slot_taken [] e = cc
  slot_taken (none ∷ os) e = let (k, t, at_k) = slot_taken os e in (suc k, t, at_k)
  slot_taken (some t ∷ os) e = (0, t, refl)

-- The top is the first element with the least key.
module _ {T : Type 0} (key : T → ℕ) where
  abbrev pick : T → Option T → T
  pick t none = t
  pick t (some u) = if ltb (key u) (key t) then u else t

  abbrev least : List (Option T) → Option T
  least [] = none
  least (none ∷ os) = least os
  least (some t ∷ os) = some (pick t (least os))

  pub least_at : (os : List (Option T)) (t : T) → least os ≡ some t → (k : ℕ) × (slot k os ≡ some t)
  least_at [] t e = cc
  least_at (none ∷ os) t e = let (k, at_k) = least_at os t e in (suc k, at_k)
  least_at (some u ∷ os) t e = picked (least os) e (λ v there. least_at os v there)
    where
      picked :
          (o : Option T)
          → ◌≡◌ {A = Option T} (some (pick u o)) (some t)
          → ((v : T) → o ≡ some v → (k : ℕ) × (slot k os ≡ some v))
          → (k : ℕ) × (slot k (some u ∷ os) ≡ some t)
      picked none e later = (0, e)
      picked (some v) e later = elim (Bool-cases (ltb (key v) (key u))) [
        | inl less ↦ let (k, at_k) = later v refl in (suc k, at_k ∙ (rw less at e))
        | inr not_less ↦ (0, rw not_less at e)
      ]

  pub least-none : (os : List (Option T)) (k : ℕ) → least os ≡ none → slot k os ≡ none
  least-none [] k e = refl
  least-none (none ∷ os) zero e = refl
  least-none (none ∷ os) (suc k) e = least-none os k e
  least-none (some t ∷ os) k e = cc

  pub least_le :
      (os : List (Option T)) (t u : T) (k : ℕ)
      → least os ≡ some t
      → slot k os ≡ some u
      → key t ≤ key u
  least_le [] t u k e h = cc
  least_le (none ∷ os) t u zero e h = cc
  least_le (none ∷ os) t u (suc k) e h = least_le os t u k e h
  least_le (some x ∷ os) t u zero e h = picked (least os) e h
    where
      picked :
          (o : Option T)
          → ◌≡◌ {A = Option T} (some (pick x o)) (some t)
          → ◌≡◌ {A = Option T} (some x) (some u)
          → key t ≤ key u
      picked none e h = let same : t ≡ u = cc in rw same (omega arith)
      picked (some v) e h = ground arith
  least_le (some x ∷ os) t u (suc k) e h =
      picked (least os) e (λ v there. least_le os v u k there h) (λ gone. least-none os k gone)
    where
      picked :
          (o : Option T)
          → ◌≡◌ {A = Option T} (some (pick x o)) (some t)
          → ((v : T) → o ≡ some v → key v ≤ key u)
          → (o ≡ none → slot k os ≡ none)
          → key t ≤ key u
      picked none e later empty = let gone = empty refl in cc
      picked (some v) e later empty = let le = later v refl in ground arith

pub ltb_of_le : (a b : ℕ) → a ≤ b → ltb b a ≡ false
ltb_of_le a b le = ground arith

pub same_slot : (j k : ℕ) → Dec (j ≡ k)
same_slot j k = elim (Bool-cases (j == k)) [
  | inl same ↦ yes (ground arith)
  | inr differ ↦ no (λ e. ground arith)
]

-- A heap whose top has the least key. The order is found anew at each call, so that every heap is
-- in order.
abbrev pub slots : {T : Type 0} (key : T → ℕ) → PairingHeap T (λ a b. ltb (key b) (key a))
slots {T} key = record {
  Heap = List (Option T);
  Handle = ℕ;
  Handle_discrete = same_slot;
  empty = [];
  push = λ t os. os ++ some t ∷ [];
  pushed = λ t os. behind os;
  top = least key;
  at = slot;
  put = λ k t os. place k (some t) os;
  increase = λ k os. os;
  decrease = λ k os. os;
  erase = λ k os. place k none os;
  is_empty = vacant;
  Ordered = λ os. Unit {0};
  at_empty = λ k. refl;
  at_pushed = slot_pushed;
  at_push = slot_push;
  pushed_fresh = λ t os. slot-behind os;
  at_put_self = slot-place;
  at_put_ne = λ k j t os ne. slot-place_ne k j (some t) os ne;
  at_increase = λ k j os. refl;
  at_decrease = λ k j os. refl;
  at_erase_self = slot_cleared;
  at_erase_ne = λ k j os ne. slot-place_ne k j none os ne;
  top_at = least_at key;
  top_none = least-none key;
  top_greatest =
      λ os t u k o is_top at_k. ltb_of_le (key t) (key u) (least_le key os t u k is_top at_k);
  is_empty_none = λ os k e. slot-vacant os k e;
  is_empty_some = slot_taken;
  Ordered_empty = tt;
  Ordered_push = λ t os o. tt;
  Ordered_erase = λ k os o. tt;
  Ordered_increase = λ k old t os o at_k le. tt;
  Ordered_decrease = λ k old t os o at_k le. tt;
}
