-- ===== src/Connector/Clients.antt =====
-- Many clients that share one selector, on one thread that runs the io_context: the handler of
-- async_accept in src/lb/tcp/acceptor.cpp hands them over, the handlers of
-- src/lb/tcp/connector.cpp complete their operations one at a time, and ThreadRoutine of
-- src/lb/application.cpp stops the io_context at the first exception that leaves a handler.
pub mod Shared
pub mod Handlers
pub mod Totals
pub mod Safety
pub mod Quiet
pub mod OfVectors
pub mod OfWeighted
pub mod OfHeaps
mod Tests
use lb.Common.{
  ℕ, Bool, true, false, not, ◌&&◌, ◌||◌, if◌then◌else◌, List, [], ◌∷◌, ◌++◌, Option, none, some,
  get_elem?, set,
}
use lb.Platform.{Asio}
use lb.Backend.{Endpoint}
use lb.Session.{ErrorCode}
use lb.Selector.{ISelector}
use lb.Connector.{
  Progress, connecting, resolving, connecting_resolved, running, dropped, failed, broken,
  make_and_run_session, complete,
}

module _ ⦃asio : Asio⦄ where
  -- What wakes the thread: a client that was accepted, or the completion of the operation that the
  -- client of a number waits for.
  pub data Event : Type 0 where
    arrival : Endpoint → Event
    completion : ℕ → Option ErrorCode → Event

  -- The connector with the clients that it got, the first one in front; `stopped` tells that the
  -- io_context was stopped.
  pub record Clients (i : ISelector) : Type 0 where
    pub selector : i.State
    pub stopped : Bool
    pub clients : List (Endpoint × Progress)

  -- An exception leaves the handler.
  abbrev pub is_failed : Progress → Bool
  is_failed (failed e) = true
  is_failed _ = false

  -- An operation of the client is under way.
  abbrev pub is_waiting : Progress → Bool
  is_waiting (connecting b) = true
  is_waiting (resolving b) = true
  is_waiting (connecting_resolved b) = true
  is_waiting _ = false

  module _ (i : ISelector) where
    -- The handler of async_accept, for a client.
    unfoldable pub arrive : Endpoint → Clients i → Clients i
    unfolding make_and_run_session
    arrive client s =
        let r = make_and_run_session i client s.selector in
        record {
          selector = r.0;
          stopped = is_failed r.1;
          clients = s.clients ++ (client, r.1) ∷ [];
        }

    -- The client at `j` goes on, if it waits.
    unfoldable pub resume : ℕ → Option ErrorCode → Endpoint × Progress → Clients i → Clients i
    unfolding complete
    resume j result (client, p) s =
        let r = complete i client result s.selector p in
        if is_waiting p
        then record {
          selector = r.0;
          stopped = is_failed r.1;
          clients = set s.clients j (client, r.1);
        }
        else s

    -- The handler of a completion: there is none for a number without a client.
    unfoldable pub finish : ℕ → Option ErrorCode → Clients i → Clients i
    unfolding resume
    finish j result s = elim (get_elem? s.clients j) [ none ↦ s | some c ↦ resume j result c s ]

    -- A handler runs unless the io_context was stopped.
    unfoldable pub handle : Event → Clients i → Clients i
    unfolding arrive finish
    handle (arrival client) s = elim s.stopped [ true ↦ s | false ↦ arrive client s ]
    handle (completion j result) s = elim s.stopped [ true ↦ s | false ↦ finish j result s ]

    unfoldable pub handle_all : List Event → Clients i → Clients i
    unfolding handle
    handle_all [] s = s
    handle_all (e ∷ es) s = handle_all es (handle e s)

    abbrev pub waits : Option (Endpoint × Progress) → Bool
    waits none = false
    waits (some c) = is_waiting c.1

    -- The event completes an operation, whose handler runs.
    abbrev pub completes : Event → Clients i → Bool
    completes (arrival client) s = false
    completes (completion j result) s = not s.stopped && waits (get_elem? s.clients j)

    abbrev pub any_waits : List (Endpoint × Progress) → Bool
    any_waits [] = false
    any_waits (c ∷ cs) = is_waiting c.1 || any_waits cs

    -- Nothing is under way that a handler would run for, or the io_context was stopped.
    abbrev pub is_quiet : Clients i → Bool
    is_quiet s = s.stopped || not (any_waits s.clients)
