-- ===== src/Session/Tests.antt =====
-- One session with concrete messages.
use lb.Common.{String, refl, [], ◌∷◌, none, some, true}
use lb.Session.{
  Session, Shutdowns, other, make_session, start, handle_client_read, handle_send_to_server,
  handle_server_read, destroy, not_connected,
}
use lb.Session.Lifecycle.{
  Runs, Forwards, Runs-Forwards, started, request_read, request_sent, server_read_failed,
  destructed,
}
use lb.Session.Notices.{Balanced, Runs-Balanced}

abbrev clean : Shutdowns
clean = record { of_client = none; of_server = some not_connected }

-- A request is sent on, and the server closes without an answer.
abbrev abandoned : Session String String
abandoned = destroy clean (
    handle_server_read (some (other 1)) clean (
      handle_send_to_server none clean (
        handle_client_read none clean
          (record (start (make_session 7 true)) { client_request = some "GET /" }))))

abandoned-Runs : Runs (make_session 7 true) ("GET /" ∷ []) [] abandoned
unfolding start make_session handle_client_read handle_send_to_server handle_server_read
abandoned-Runs =
    destructed
      (server_read_failed (request_sent (request_read started refl "GET /" clean) refl clean) refl
        (other 1) clean)
      refl refl clean

Runs-Forwards_example : Forwards ("GET /" ∷ []) [] abandoned
Runs-Forwards_example = Runs-Forwards 7 true abandoned-Runs

Runs-Balanced_example : Balanced ("GET /" ∷ []) [] abandoned
Runs-Balanced_example = Runs-Balanced 7 abandoned-Runs
