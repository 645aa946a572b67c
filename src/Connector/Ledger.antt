-- ===== src/Connector/Ledger.antt =====
-- The counts of the least-connections selector against what its clients hold: SelectBackend,
-- ExcludeBackend and the calls of LeastConnectionsCallbacks, in whatever order the clients of
-- src/lb/tcp/connector.cpp make them.
pub mod Sums
pub mod Recount
pub mod Balance
pub mod Sessions
mod Tests
use lb.Common.{
  ℕ, suc, ◌+◌, ◌-◌, ◌<◌, List, [], ◌∷◌, ◌++◌, Option, none, some, Outcome, ok, throws, undefined,
  get_elem?, set, ◌≡◌,
}
use lb.Platform.{Asio}
use lb.Platform.Heap.{PairingHeap}
use lb.Backend.{Backend}
use lb.Session.{Notice, on_connect, on_disconnect}
use lb.LeastConnections.{
  CounterWrapper, connections_compare, LeastConnections, select_backend, exclude_backend,
}
use lb.Connector.{least_connections_callback}

-- What a client holds of its backend's count after a notification of its session.
abbrev pub holds_after : Notice → ℕ → ℕ
holds_after on_connect k = suc k
holds_after on_disconnect k = k - 1
holds_after _ k = k

module _ ⦃asio : Asio⦄ where
  -- A client is sent to a backend, the session of the client of a number notifies, or a backend is
  -- excluded.
  pub data Move : Type 0 where
    arrives : Move
    notifies : ℕ → Notice → Move
    excludes : Backend → Move

module _ ⦃asio : Asio⦄ ⦃heap : PairingHeap CounterWrapper connections_compare⦄ where
  -- The selector, and for each client, the first one in front, its backend and what it holds.
  pub record Books : Type 0 where
    pub selector : LeastConnections
    pub held : List (Backend × ℕ)

  -- A client that was given a backend holds one connection of it.
  abbrev pub taken : LeastConnections × Outcome Backend → List (Backend × ℕ) → Books
  taken (s, ok b) held = record { selector = s; held = held ++ (b, 1) ∷ [] }
  taken (s, throws e) held = record { selector = s; held = held }
  taken (s, undefined) held = record { selector = s; held = held }

  -- The notifier of a client calls the selector.
  abbrev pub notified : ℕ → Notice → Backend × ℕ → Books → Books
  notified j n (b, k) s = record {
    selector = (least_connections_callback b n s.selector).0;
    held = set s.held j (b, holds_after n k);
  }

  unfoldable pub move : Move → Books → Books
  unfolding select_backend exclude_backend least_connections_callback
  move arrives s = taken (select_backend s.selector) s.held
  move (notifies j n) s = elim (get_elem? s.held j) [ none ↦ s | some c ↦ notified j n c s ]
  move (excludes b) s = record { selector = (exclude_backend b s.selector).0; held = s.held }

  unfoldable pub move_all : List Move → Books → Books
  unfolding move
  move_all [] s = s
  move_all (m ∷ ms) s = move_all ms (move m s)

  -- The client of the number holds a connection where its session disconnects, as a session does
  -- that has been selected for once, has connected once, and disconnects twice at most.
  abbrev pub Holds : Option (Backend × ℕ) → Type 0
  Holds none = Unit {0}
  Holds (some c) = 0 < c.1

  abbrev pub Backed : Move → Books → Type 0
  Backed (notifies j on_disconnect) s = Holds (get_elem? s.held j)
  Backed _ s = Unit {0}

  unfoldable pub AllBacked : List Move → Books → Type 0
  unfolding move
  AllBacked [] s = Unit {0}
  AllBacked (m ∷ ms) s = Backed m s × AllBacked ms (move m s)
