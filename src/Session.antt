-- ===== src/Session.antt =====
-- class HttpSession of src/lb/tcp/session.hpp and session.cpp: one client, one server, and the
-- asynchronous operation that is under way. Requests and responses are what Boost.Beast parses.
pub mod Lifecycle
pub mod Notices
pub mod FirstNotice
mod Tests
use lb.Common.{
  Bool, true, false, ℕ, ◌+◌, ◌%◌, size_mod, List, [], ◌∷◌, ◌++◌, Option, none, some, not, ◌&&◌,
  if◌then◌else◌,
}

-- The error codes that the program tells apart, and the others.
pub data ErrorCode : Type 0 where
  eof end_of_stream operation_aborted not_connected bad_descriptor connection_refused : ErrorCode
  other : ℕ → ErrorCode

-- The methods of StateNotifier.
pub data Notice : Type 0 where
  on_connect on_disconnect on_response_receive on_response_sent on_request_receive : Notice
  on_request_sent : Notice

-- The operation whose handler holds the session.
pub data Pending : Type 0 where
  client_reading server_writing server_reading client_writing nothing : Pending

-- What shutdown reports for the two sockets.
pub record Shutdowns : Type 0 where
  pub of_client : Option ErrorCode
  pub of_server : Option ErrorCode

-- NeedErrorLogging
unfoldable pub need_error_logging : ErrorCode → Bool
need_error_logging eof = false
need_error_logging end_of_stream = false
need_error_logging operation_aborted = false
need_error_logging _ = true

-- CloseSocket, of an open socket, and whether it is open afterwards: only a shutdown with no error is
-- followed by close.
unfoldable pub close_socket : Bool → Option ErrorCode → Bool
close_socket true (some e) = true
close_socket true none = false
close_socket false result = false

-- The error that CloseSocket logs.
unfoldable pub close_log : Bool → Option ErrorCode → List ErrorCode
close_log true (some not_connected) = []
close_log true (some bad_descriptor) = []
close_log true (some e) = e ∷ []
close_log true none = []
close_log false result = []

-- HttpSession::generateId: the counter afterwards, and the id.
unfoldable pub generate_id : ℕ → ℕ × ℕ
generate_id id = ((id + 1) % size_mod, id)

-- `to_server` and `to_client` are the messages that were handed to async_write, `notices` the calls of
-- the visitor and `logged` the errors that were logged, each with the first one in front.
pub record Session (Request Response : Type 0) : Type 0 where
  pub id : ℕ
  pub visitor : Bool
  pub client_open : Bool
  pub server_open : Bool
  pub client_request : Option Request
  pub server_response : Option Response
  pub pending : Pending
  pub destroyed : Bool
  pub to_server : List (Option Request)
  pub to_client : List (Option Response)
  pub notices : List Notice
  pub logged : List ErrorCode

module _ {Request Response : Type 0} where
  -- HttpSession::HttpSession
  unfoldable pub make_session : ℕ → Bool → Session Request Response
  make_session id visitor = record {
    id = id;
    visitor = visitor;
    client_open = true;
    server_open = true;
    client_request = none;
    server_response = none;
    pending = nothing;
    destroyed = false;
    to_server = [];
    to_client = [];
    notices = [];
    logged = [];
  }

  -- if (visitor_) { visitor_->…(); }
  unfoldable pub notify : Notice → Session Request Response → Session Request Response
  notify n s = record s { notices = if s.visitor then s.notices ++ n ∷ [] else s.notices }

  -- if (NeedErrorLogging(ec)) { SERROR(…); }
  unfoldable pub log_error : ErrorCode → Session Request Response → Session Request Response
  unfolding need_error_logging
  log_error e s = record s {
    logged = if need_error_logging e then s.logged ++ e ∷ [] else s.logged;
  }

  -- HttpSession::ClientRead. clear() empties the header of a message; `none` stands for what it
  -- leaves, and what async_read makes of that is the message that is read next.
  unfoldable pub client_read : Session Request Response → Session Request Response
  client_read s = record s {
    client_request = none;
    server_response = none;
    pending = client_reading;
  }

  -- HttpSession::SendToServer
  unfoldable pub send_to_server : Session Request Response → Session Request Response
  send_to_server s = record s {
    to_server = s.to_server ++ s.client_request ∷ [];
    pending = server_writing;
  }

  -- HttpSession::ServerRead
  unfoldable pub server_read : Session Request Response → Session Request Response
  server_read s = record s { pending = server_reading }

  -- HttpSession::SendToClient
  unfoldable pub send_to_client : Session Request Response → Session Request Response
  send_to_client s = record s {
    to_client = s.to_client ++ s.server_response ∷ [];
    pending = client_writing;
  }

  -- HttpSession::Cancel
  unfoldable pub cancel : Shutdowns → Session Request Response → Session Request Response
  unfolding close_socket close_log notify
  cancel shut s = notify on_disconnect (record s {
    client_open = close_socket s.client_open shut.of_client;
    server_open = close_socket s.server_open shut.of_server;
    logged =
        s.logged
        ++ close_log s.client_open shut.of_client
        ++ close_log s.server_open shut.of_server;
  })

  -- What the four handlers do with an error: nothing is under way afterwards.
  unfoldable pub fail : ErrorCode → Shutdowns → Session Request Response → Session Request Response
  unfolding log_error cancel
  fail e shut s = cancel shut (log_error e (record s { pending = nothing }))

  -- HttpSession::Run
  unfoldable pub start : Session Request Response → Session Request Response
  unfolding notify client_read
  start s = client_read (notify on_connect s)

  -- HttpSession::HandleClientRead, without an error or with one; the request has been read.
  unfoldable pub handle_client_read :
      Option ErrorCode → Shutdowns → Session Request Response → Session Request Response
  unfolding fail notify send_to_server
  handle_client_read (some e) shut s = fail e shut s
  handle_client_read none shut s = send_to_server (notify on_request_receive s)

  -- HttpSession::HandleSendToServer
  unfoldable pub handle_send_to_server :
      Option ErrorCode → Shutdowns → Session Request Response → Session Request Response
  unfolding fail notify server_read
  handle_send_to_server (some e) shut s = fail e shut s
  handle_send_to_server none shut s = server_read (notify on_request_sent s)

  -- HttpSession::HandleServerRead
  unfoldable pub handle_server_read :
      Option ErrorCode → Shutdowns → Session Request Response → Session Request Response
  unfolding fail notify send_to_client
  handle_server_read (some e) shut s = fail e shut s
  handle_server_read none shut s = send_to_client (notify on_response_receive s)

  -- HttpSession::HandleSendToClient
  unfoldable pub handle_send_to_client :
      Option ErrorCode → Shutdowns → Session Request Response → Session Request Response
  unfolding fail notify client_read
  handle_send_to_client (some e) shut s = fail e shut s
  handle_send_to_client none shut s = client_read (notify on_response_sent s)

  -- HttpSession::~HttpSession
  unfoldable pub destroy : Shutdowns → Session Request Response → Session Request Response
  unfolding cancel
  destroy shut s = record (cancel shut s) { pending = nothing; destroyed = true }
