-- ===== src/LeastConnections/Counts.antt =====
-- The map from backends to connection counts that the pool of handles and the heap stand for.
use mathlib.Core.Option
use lb.Common.{
  ℕ, String, Bool, true, false, ◌≡◌, refl, ap, ◌∙◌, Option, some, str_eq, if◌then◌else◌,
}
use lb.Platform.{Asio}
use lb.Platform.Heap.{PairingHeap}
use lb.Pool
use lb.Pool.Replacement
use lb.Backend.{to_string}
use lb.LeastConnections.{CounterWrapper, connections_compare, LeastConnections}

module _ ⦃asio : Asio⦄ where
  abbrev pub name_of : CounterWrapper → String
  name_of w = to_string w.b

  abbrev pub counter_of : CounterWrapper → ℕ
  counter_of w = w.counter

-- A map of a choice is a choice of maps.
pub map-if :
    {A B : Type 0} (f : A → B) (t : Bool) (x y : Option A)
    → Option.map f (if t then x else y) ≡ (if t then Option.map f x else Option.map f y)
map-if f true x y = refl
map-if f false x y = refl

module _ ⦃asio : Asio⦄ ⦃heap : PairingHeap CounterWrapper connections_compare⦄ where
  -- The pool holds, under its name, exactly the handle of each element of the heap.
  abbrev pub Linked : LeastConnections → Type 0
  Linked s = Pool.Linked heap name_of s.handle_pool s.backends

  -- The number of connections that the selector counts for the backend of that name.
  abbrev pub connections : LeastConnections → String → Option ℕ
  connections s key = Option.map counter_of (Pool.entry heap name_of s.handle_pool s.backends key)

  -- The selector after the assignment of `new` to an element.
  abbrev pub changed : heap.Handle → CounterWrapper → LeastConnections → LeastConnections
  changed k new s = record s { backends = heap.decrease k (heap.put k new s.backends) }

  module _ (k : heap.Handle) (old new : CounterWrapper) (s : LeastConnections)
      (at_k : heap.at k s.backends ≡ some old) (l : Linked s) where
    replaced : Pool.Replaced heap name_of k new s.backends (changed k new s).backends
    replaced = Replacement.Replaced-decrease heap name_of k old new s.backends at_k

    pub Linked-changed : to_string new.b ≡ to_string old.b → Linked (changed k new s)
    Linked-changed =
        Replacement.Linked-replaced heap name_of s.handle_pool k old new s.backends
          (changed k new s).backends at_k replaced l

    pub connections-changed :
        (key : String)
        → connections (changed k new s) key
          ≡ (if str_eq (to_string old.b) key then some new.counter else connections s key)
    connections-changed key =
        ap (Option.map counter_of) (
          Replacement.entry-replaced heap name_of s.handle_pool k old new s.backends
            (changed k new s).backends at_k replaced l key)
        ∙ map-if counter_of (str_eq (to_string old.b) key) (some new)
            (Pool.entry heap name_of s.handle_pool s.backends key)
