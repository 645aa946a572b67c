-- ===== src/Connector.antt =====
-- class Connector and the notifier classes of src/lb/tcp/connector.hpp and connector.cpp: one client
-- from its acceptance to its session. A completion of an asynchronous operation is a call with its
-- error code, if there is one.
pub mod Retry
pub mod Promise
pub mod WeightedPromise
pub mod Callbacks
pub mod ResponseTimes
pub mod Ledger
pub mod Life
pub mod Clients
pub mod HeapPromise
pub mod AllRefused
pub mod Duplicates
pub mod Window
mod Tests
use lb.Common.{
  ℕ, ◌+◌, ◌-◌, ltb, Bool, true, false, List, [], ◌∷◌, Option, none, some, Outcome, ok, throws,
  undefined, Action, Exception, ℤ, pos, negsuc, if◌then◌else◌,
}
use lb.Platform.{Asio, Double}
use lb.Platform.Heap.{PairingHeap}
use lb.Backend.{Backend, Endpoint, of_endpoint, of_url}
use lb.Session.{
  ErrorCode, connection_refused, Notice, on_connect, on_disconnect, on_request_sent,
  on_response_receive,
}
use lb.Selector.{ISelector, SelectorType, least_connections, least_response_time}
use lb.LeastConnections
use lb.LeastResponseTime

-- Which notifier class MakeSession hands to the session.
pub data Visitor : Type 0 where
  least_connections_callbacks least_response_time_callbacks no_visitor : Visitor

unfoldable pub visitor_of : SelectorType → Visitor
visitor_of least_connections = least_connections_callbacks
visitor_of least_response_time = least_response_time_callbacks
visitor_of _ = no_visitor

-- error == boost::asio::error::connection_refused
abbrev pub is_refused : ErrorCode → Bool
is_refused connection_refused = true
is_refused _ = false

module _ ⦃asio : Asio⦄ where
  -- Where a client stands: its connection to an endpoint is under way, a name is resolved, the
  -- connection to what it resolved to is under way, its session runs, the client was dropped, or a
  -- handler ended with an exception, or without defined behaviour.
  pub data Progress : Type 0 where
    connecting resolving connecting_resolved : Backend → Progress
    running : Backend → Visitor → Progress
    dropped : Progress
    failed : Exception → Progress
    broken : Progress

  -- The operation that MakeAndRunSession starts for a backend.
  abbrev pub started : Backend → Progress
  started (of_endpoint e) = connecting (of_endpoint e)
  started (of_url u) = resolving (of_url u)

  abbrev pub selected : {S : Type 0} → S × Outcome Backend → S × Progress
  selected (s, ok b) = (s, started b)
  selected (s, throws e) = (s, failed e)
  selected (s, undefined) = (s, broken)

  -- Connector::MakeAndRunSession, until the operation that it starts completes, of a client whose
  -- socket is connected: `client` is what its remote_endpoint() returns, at every call.
  unfoldable pub make_and_run_session : (i : ISelector) → Endpoint → i.State → i.State × Progress
  make_and_run_session i client s = selected (i.select_backend client s)

  unfoldable pub retried :
      (i : ISelector) → Endpoint → i.State × Outcome (Unit {0}) → i.State × Progress
  unfolding make_and_run_session
  retried i client (s, ok u) = make_and_run_session i client s
  retried i client (s, throws e) = (s, failed e)
  retried i client (s, undefined) = (s, broken)

  -- What the handlers of the connection and of the resolution do with an error.
  unfoldable pub on_error :
      (i : ISelector) → Endpoint → Backend → ErrorCode → i.State → i.State × Progress
  unfolding retried
  on_error i client b error s =
      let again = retried i client (i.exclude_backend b s) in
      if is_refused error then again else (s, dropped)

  -- A completion: nothing happens to a client that waits for none.
  unfoldable pub complete :
      (i : ISelector) → Endpoint → Option ErrorCode → i.State → Progress → i.State × Progress
  unfolding on_error visitor_of
  complete i client (some error) s (connecting b) = on_error i client b error s
  complete i client none s (connecting b) = (s, running b (visitor_of i.kind))
  complete i client (some error) s (resolving b) = on_error i client b error s
  complete i client none s (resolving b) = (s, connecting_resolved b)
  complete i client (some error) s (connecting_resolved b) = (s, dropped)
  complete i client none s (connecting_resolved b) = (s, running b (visitor_of i.kind))
  complete i client result s (running b v) = (s, running b v)
  complete i client result s dropped = (s, dropped)
  complete i client result s (failed e) = (s, failed e)
  complete i client result s broken = (s, broken)

  -- The completions of a list, one after the other.
  unfoldable pub complete_all :
      (i : ISelector) → Endpoint → List (Option ErrorCode) → i.State → Progress → i.State × Progress
  unfolding complete
  complete_all i client [] s p = (s, p)
  complete_all i client (r ∷ rs) s p =
      let next = complete i client r s p in complete_all i client rs next.0 next.1

module _ ⦃asio : Asio⦄
    ⦃counts : PairingHeap LeastConnections.CounterWrapper
      LeastConnections.connections_compare⦄ where
  -- LeastConnectionsCallbacks: the call of the selector that a notification makes.
  unfoldable pub least_connections_callback :
      Backend → Notice → Action LeastConnections.LeastConnections (Unit {0})
  least_connections_callback b on_connect = LeastConnections.increase_connection_count b
  least_connections_callback b on_disconnect = LeastConnections.decrease_connection_count b
  least_connections_callback b _ = λ s. (s, ok tt)

-- The difference of two points in time, in nanoseconds.
abbrev pub duration : ℕ → ℕ → ℤ
duration begin now = if ltb now begin then negsuc (begin - now - 1) else pos (now - begin)

module _ ⦃asio : Asio⦄ ⦃double : Double⦄
    ⦃times : PairingHeap LeastResponseTime.AverageTimeWrapper LeastResponseTime.ema_compare⦄ where
  -- LeastResponseTimeCallbacks at the time `now`: `response_begin` afterwards, and the call of the
  -- selector.
  unfoldable pub least_response_time_callback :
      Backend
      → Notice
      → ℕ
      → ℕ
      → LeastResponseTime.LeastResponseTime
      → ℕ × (LeastResponseTime.LeastResponseTime × Outcome (Unit {0}))
  least_response_time_callback b on_request_sent now response_begin s = (now, (s, ok tt))
  least_response_time_callback b on_response_receive now response_begin s =
      (response_begin, LeastResponseTime.add_response_time b (duration response_begin now) s)
  least_response_time_callback b _ now response_begin s = (response_begin, (s, ok tt))
