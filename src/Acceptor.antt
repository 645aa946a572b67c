-- ===== src/Acceptor.antt =====
-- class Acceptor of src/lb/tcp/acceptor.hpp and acceptor.cpp: the loop that accepts clients.
pub mod Accepted
mod Tests
use lb.Common.{
  ℕ, ◌%◌, port_mod, if◌then◌else◌, Bool, true, false, List, [], ◌∷◌, ◌++◌, Option, none, some,
  Exception,
}
use lb.Session.{ErrorCode, operation_aborted}

-- How async_accept completes: with an error, with a client, or with a client that is gone again, so
-- that local_endpoint(), which the handler calls for its log line, throws.
pub data Completion (Client : Type 0) : Type 0 where
  failed : ErrorCode → Completion Client
  accepted : Client → Completion Client
  vanished : Client → Exception → Completion Client

-- `accepting` tells that an async_accept is under way, `handed` are the clients that were handed to
-- the connector, and `thrown` the exceptions that have left the handler, with the first one in front.
pub record Acceptor (Client : Type 0) : Type 0 where
  pub is_open : Bool
  pub accepting : Bool
  pub handed : List Client
  pub thrown : List Exception

-- boost::asio::ip::tcp::endpoint of a port on every address: its port is an unsigned short.
pub record ListenEndpoint : Type 0 where
  pub v6 : Bool
  pub port : ℕ

-- AcceptorEndpoint
unfoldable pub acceptor_endpoint : ℕ → Bool → ListenEndpoint
acceptor_endpoint port use_ipv6 =
    if use_ipv6
    then record { v6 = true; port = port % port_mod }
    else record { v6 = false; port = port % port_mod }

module _ {Client : Type 0} where
  -- Acceptor::Acceptor
  unfoldable pub listening : Acceptor Client
  listening = record { is_open = true; accepting = false; handed = []; thrown = [] }

  -- Acceptor::DoAccept
  unfoldable pub do_accept : Acceptor Client → Acceptor Client
  do_accept a = record a { accepting = true }

  -- Acceptor::Run
  unfoldable pub run : Acceptor Client → Acceptor Client
  unfolding do_accept
  run a = do_accept a

  -- Acceptor::Stop, whose cancel() aborts an operation that is outstanding: what the async_accept
  -- that is under way completes with. Where its handler is `queued` already, cancel() does not reach
  -- it.
  unfoldable pub stop : Option (Completion Client) → Acceptor Client → List (Completion Client)
  stop queued a =
      if a.accepting
      then elim queued [ none ↦ failed operation_aborted ∷ [] | some event ↦ event ∷ [] ]
      else []

  -- connector.MakeAndRunSession(std::move(client_socket))
  unfoldable pub hand_over : Client → Acceptor Client → Acceptor Client
  hand_over c a = record a { handed = a.handed ++ c ∷ [] }

  -- The handler of async_accept; an exception goes to ThreadRoutine.
  unfoldable pub handle_accept : Completion Client → Acceptor Client → Acceptor Client
  unfolding do_accept hand_over
  handle_accept (failed error) a = record a { accepting = false; is_open = false }
  handle_accept (accepted client) a = hand_over client (do_accept (record a { accepting = false }))
  handle_accept (vanished client exception) a =
      do_accept (record a { accepting = false; thrown = a.thrown ++ exception ∷ [] })

  -- A completion comes only while an operation is under way.
  unfoldable pub completion : Completion Client → Acceptor Client → Acceptor Client
  unfolding handle_accept
  completion event a =
      let handled = handle_accept event a in elim a.accepting [ true ↦ handled | false ↦ a ]

  unfoldable pub accept_all : List (Completion Client) → Acceptor Client → Acceptor Client
  unfolding completion
  accept_all [] a = a
  accept_all (e ∷ es) a = accept_all es (completion e a)
