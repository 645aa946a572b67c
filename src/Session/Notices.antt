-- ===== src/Session/Notices.antt =====
-- The calls that a session makes of its visitor.
use lb.Common.{
  ℕ, suc, ◌+◌, ◌≤◌, Bool, true, false, ◌≡◌, refl, List, [], ◌∷◌, ◌++◌, arith, length, length-append,
  if◌then◌else◌,
}
use lb.Session.{
  Session, ErrorCode, Notice, Pending, Shutdowns, client_reading, server_writing, server_reading,
  client_writing, nothing, on_connect, on_disconnect, on_response_receive, on_response_sent,
  on_request_receive, on_request_sent, make_session, notify, start, fail, handle_client_read,
  handle_send_to_server, handle_server_read, handle_send_to_client, destroy,
}
use lb.Session.Lifecycle.{
  Runs, started, request_read, request_sent, response_read, response_sent, client_read_failed,
  send_to_server_failed, server_read_failed, send_to_client_failed, destructed,
}

abbrev pub one_connect : Notice → ℕ
one_connect on_connect = 1
one_connect _ = 0

abbrev pub one_disconnect : Notice → ℕ
one_disconnect on_disconnect = 1
one_disconnect _ = 0

-- How often OnConnect and OnDisconnect were called.
abbrev pub connects : List Notice → ℕ
connects [] = 0
connects (n ∷ ns) = one_connect n + connects ns

abbrev pub disconnects : List Notice → ℕ
disconnects [] = 0
disconnects (n ∷ ns) = one_disconnect n + disconnects ns

connects-append :
    (ns : List Notice) (n : Notice) → connects (ns ++ n ∷ []) ≡ connects ns + one_connect n
connects-append [] n = omega arith
connects-append (m ∷ ns) n = omega (arith, connects-append ns n)

disconnects-append :
    (ns : List Notice) (n : Notice) → disconnects (ns ++ n ∷ []) ≡ disconnects ns + one_disconnect n
disconnects-append [] n = omega arith
disconnects-append (m ∷ ns) n = omega (arith, disconnects-append ns n)

-- What holds while an operation is under way, and when there is none: the calls of OnDisconnect, the
-- requests and the responses so far.
abbrev pub Phase : Pending → Bool → ℕ → ℕ → ℕ → Type 0
Phase client_reading destroyed d rs ps = (destroyed ≡ false) × (d ≡ 0) × (rs ≡ ps)
Phase server_writing destroyed d rs ps = (destroyed ≡ false) × (d ≡ 0) × (rs ≡ suc ps)
Phase server_reading destroyed d rs ps = (destroyed ≡ false) × (d ≡ 0) × (rs ≡ suc ps)
Phase client_writing destroyed d rs ps = (destroyed ≡ false) × (d ≡ 0) × (rs ≡ ps)
Phase nothing destroyed d rs ps = (d ≡ (if destroyed then 2 else 1)) × (ps ≤ rs) × (rs ≤ suc ps)

module _ {Request Response : Type 0} where
  pub record Balanced (rs : List Request) (ps : List Response) (s : Session Request Response)
      : Type 0 where
    pub visited : s.visitor ≡ true
    pub connected : connects s.notices ≡ 1
    pub phase : Phase s.pending s.destroyed (disconnects s.notices) (length rs) (length ps)

  -- An error, whichever operation it ends.
  fail-Balanced :
      {rs : List Request} {ps : List Response} (s : Session Request Response)
      → s.visitor ≡ true
      → connects s.notices ≡ 1
      → s.destroyed ≡ false
      → disconnects s.notices ≡ 0
      → length ps ≤ length rs
      → length rs ≤ suc (length ps)
      → (e : ErrorCode) (shut : Shutdowns) → Balanced rs ps (fail e shut s)
  unfolding fail
  fail-Balanced s v c d n low high e shut = record {
    visited = v;
    connected = rw v (omega (arith, connects-append s.notices on_disconnect, c));
    phase = rw v (rw d (omega (arith, disconnects-append s.notices on_disconnect, n), low, high));
  }

  -- A completion without an error: the visitor is told of it.
  notify-connects :
      (s : Session Request Response) (n : Notice)
      → s.visitor ≡ true
      → connects (notify n s).notices ≡ connects s.notices + one_connect n
  unfolding notify
  notify-connects s n v = rw v (connects-append s.notices n)

  notify-disconnects :
      (s : Session Request Response) (n : Notice)
      → s.visitor ≡ true
      → disconnects (notify n s).notices ≡ disconnects s.notices + one_disconnect n
  unfolding notify
  notify-disconnects s n v = rw v (disconnects-append s.notices n)

  -- A session with a visitor calls OnConnect once. It calls OnDisconnect not at all while an
  -- operation is under way, once when one has failed, and a second time when it is destroyed; and
  -- it reads requests and responses in turn.
  pub Runs-Balanced :
      (id : ℕ) {rs : List Request} {ps : List Response} {s : Session Request Response}
      → Runs (make_session id true) rs ps s
      → Balanced rs ps s
  unfolding start make_session handle_client_read handle_send_to_server handle_server_read
      handle_send_to_client destroy notify
  Runs-Balanced id started = record { visited = refl; connected = refl; phase = (refl, refl, refl) }
  Runs-Balanced id (request_read {rs = rs} {s = s} run p r shut) =
      let b = Runs-Balanced id run in
      let before = rw p at b.phase in
      record {
        visited = b.visited;
        connected = omega (arith, notify-connects s on_request_receive b.visited, b.connected);
        phase = (
          before.0,
          omega (arith, notify-disconnects s on_request_receive b.visited, before.1),
          omega (arith, length-append rs (r ∷ []), before.2),
        );
      }
  Runs-Balanced id (request_sent {s = s} run p shut) =
      let b = Runs-Balanced id run in
      let before = rw p at b.phase in
      record {
        visited = b.visited;
        connected = omega (arith, notify-connects s on_request_sent b.visited, b.connected);
        phase = (
          before.0,
          omega (arith, notify-disconnects s on_request_sent b.visited, before.1),
          before.2,
        );
      }
  Runs-Balanced id (response_read {ps = ps} {s = s} run p r shut) =
      let b = Runs-Balanced id run in
      let before = rw p at b.phase in
      record {
        visited = b.visited;
        connected = omega (arith, notify-connects s on_response_receive b.visited, b.connected);
        phase = (
          before.0,
          omega (arith, notify-disconnects s on_response_receive b.visited, before.1),
          omega (arith, length-append ps (r ∷ []), before.2),
        );
      }
  Runs-Balanced id (response_sent {s = s} run p shut) =
      let b = Runs-Balanced id run in
      let before = rw p at b.phase in
      record {
        visited = b.visited;
        connected = omega (arith, notify-connects s on_response_sent b.visited, b.connected);
        phase = (
          before.0,
          omega (arith, notify-disconnects s on_response_sent b.visited, before.1),
          before.2,
        );
      }
  Runs-Balanced id (client_read_failed {s = s} run p e shut) =
      let b = Runs-Balanced id run in
      let before = rw p at b.phase in
      fail-Balanced s b.visited b.connected before.0 before.1 (omega (arith, before.2))
        (omega (arith, before.2)) e shut
  Runs-Balanced id (send_to_server_failed {s = s} run p e shut) =
      let b = Runs-Balanced id run in
      let before = rw p at b.phase in
      fail-Balanced s b.visited b.connected before.0 before.1 (omega (arith, before.2))
        (omega (arith, before.2)) e shut
  Runs-Balanced id (server_read_failed {s = s} run p e shut) =
      let b = Runs-Balanced id run in
      let before = rw p at b.phase in
      fail-Balanced s b.visited b.connected before.0 before.1 (omega (arith, before.2))
        (omega (arith, before.2)) e shut
  Runs-Balanced id (send_to_client_failed {s = s} run p e shut) =
      let b = Runs-Balanced id run in
      let before = rw p at b.phase in
      fail-Balanced s b.visited b.connected before.0 before.1 (omega (arith, before.2))
        (omega (arith, before.2)) e shut
  Runs-Balanced id (destructed {s = s} run p d shut) =
      let b = Runs-Balanced id run in
      let before = rw (p, d) at b.phase in
      record {
        visited = b.visited;
        connected = omega (arith, notify-connects s on_disconnect b.visited, b.connected);
        phase = (
          omega (arith, notify-disconnects s on_disconnect b.visited, before.0),
          before.1,
          before.2,
        );
      }
