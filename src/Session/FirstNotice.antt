-- ===== src/Session/FirstNotice.antt =====
-- The first call that a session makes of its visitor.
use lb.Common.{ℕ, true, ◌≡◌, refl, ap, List, [], ◌∷◌, ◌++◌, Bool-cases, inl, inr}
use lb.Session.{
  Session, Notice, on_connect, on_disconnect, on_response_receive, on_response_sent,
  on_request_receive, on_request_sent, make_session, notify, start, handle_client_read,
  handle_send_to_server, handle_server_read, handle_send_to_client, destroy,
}
use lb.Session.Lifecycle.{
  Runs, started, request_read, request_sent, response_read, response_sent, client_read_failed,
  send_to_server_failed, server_read_failed, send_to_client_failed, destructed,
}

module _ {Request Response : Type 0} where
  abbrev pub Starts : Session Request Response → Type 0
  Starts s = (rest : List Notice) × (s.notices ≡ on_connect ∷ rest)

  notify-Starts : (s : Session Request Response) (n : Notice) → Starts s → Starts (notify n s)
  unfolding notify
  notify-Starts s n (rest, e) = elim (Bool-cases s.visitor) [
    | inl v ↦ (rest ++ n ∷ [], rw v (ap (λ (ns : List Notice). ns ++ n ∷ []) e))
    | inr v ↦ (rest, rw v e)
  ]

  -- The first notification of a session with a visitor is OnConnect.
  pub Runs-Starts :
      (id : ℕ) {rs : List Request} {ps : List Response} {s : Session Request Response}
      → Runs (make_session id true) rs ps s
      → Starts s
  unfolding start make_session handle_client_read handle_send_to_server handle_server_read
      handle_send_to_client destroy notify
  Runs-Starts id started = ([], refl)
  Runs-Starts id (request_read {s = s} run p r shut) =
      notify-Starts s on_request_receive (Runs-Starts id run)
  Runs-Starts id (request_sent {s = s} run p shut) =
      notify-Starts s on_request_sent (Runs-Starts id run)
  Runs-Starts id (response_read {s = s} run p r shut) =
      notify-Starts s on_response_receive (Runs-Starts id run)
  Runs-Starts id (response_sent {s = s} run p shut) =
      notify-Starts s on_response_sent (Runs-Starts id run)
  Runs-Starts id (client_read_failed {s = s} run p e shut) =
      notify-Starts s on_disconnect (Runs-Starts id run)
  Runs-Starts id (send_to_server_failed {s = s} run p e shut) =
      notify-Starts s on_disconnect (Runs-Starts id run)
  Runs-Starts id (server_read_failed {s = s} run p e shut) =
      notify-Starts s on_disconnect (Runs-Starts id run)
  Runs-Starts id (send_to_client_failed {s = s} run p e shut) =
      notify-Starts s on_disconnect (Runs-Starts id run)
  Runs-Starts id (destructed {s = s} run p d shut) =
      notify-Starts s on_disconnect (Runs-Starts id run)
