-- ===== src/Connector/Ledger/Tests.antt =====
-- The books over the life of one client.
use lb.Common.{
  ℕ, String, ◌≡◌, refl, sym, List, [], ◌∷◌, Option, some, none, arith, true, str_eq, eq_iff,
  Bool-cases, inl, inr, some_injective,
}
use lb.Common.Assoc.{find, assign}
use lb.Platform.Heap.{PairingHeap}
use lb.Pool
use lb.Pool.Insertion
use lb.Fixtures.{text_asio, local}
use lb.Fixtures.Slots.{slots}
use lb.Backend.{Backend, endpoint_text, to_string}
use lb.Session.{on_connect, on_disconnect}
use lb.LeastConnections.{CounterWrapper, connections_compare, LeastConnections, select_backend}
use lb.LeastConnections.Counts.{Linked, connections, counter_of, name_of}
use lb.Connector.Ledger.{Move, arrives, notifies, Books, move_all, AllBacked}
use lb.Connector.Ledger.Recount.{Balanced}
use lb.Connector.Ledger.Balance.{move_all-Balanced}

abbrev here : Backend
here = local 80

instance abbrev counts : PairingHeap CounterWrapper connections_compare
counts = slots counter_of

abbrev wrapper : CounterWrapper
wrapper = record { b = here; counter = 0 }

abbrev fresh : LeastConnections
fresh = record { handle_pool = (to_string here, 0) ∷ []; backends = some wrapper ∷ [] }

fresh-Linked : Linked fresh
unfolding assign find
fresh-Linked =
    Insertion.Linked-push counts name_of [] wrapper [] refl (Pool.Linked-empty counts name_of)

none_yet : (name : String) (m : ℕ) → connections fresh name ≡ some m → m ≡ 0
unfolding find
none_yet name m h = elim (Bool-cases (str_eq (to_string here) name)) [
  | inl same ↦
      let zero_counted : ◌≡◌ {A = Option ℕ} (some 0) (some m) = rw same at h in
      sym (some_injective zero_counted)
  | inr differ ↦ let gone : ◌≡◌ {A = Option ℕ} none (some m) = rw differ at h in cc
]

abbrev opened : Books
opened = record { selector = fresh; held = [] }

abbrev life : List Move
life = arrives ∷ notifies 0 on_connect ∷ notifies 0 on_disconnect ∷ notifies 0 on_disconnect ∷ []

life-Backed : AllBacked life opened
unfolding AllBacked select_backend find to_string endpoint_text lb.Common.decimal
life-Backed = (tt, (tt, (omega arith, (omega arith, tt))))

move_all-Balanced_example : Balanced 0 (move_all life opened)
move_all-Balanced_example =
    move_all-Balanced life opened
      (record { linked = fresh-Linked; agrees = none_yet; room = omega arith }) life-Backed
