-- ===== src/Session/Lifecycle.antt =====
-- What can happen to a session from its start to its destruction.
use lb.Common.{ℕ, ◌∙◌, Bool, false, ◌≡◌, refl, List, [], ◌∷◌, ◌++◌, none, some, map}
use mathlib.Core.List.{map-append}
use lb.Session.{
  Session, ErrorCode, Shutdowns, client_reading, server_writing, server_reading, client_writing,
  nothing, make_session, start, handle_client_read, handle_send_to_server, handle_server_read,
  handle_send_to_client, destroy,
}

module _ {Request Response : Type 0} where
  -- A session that was started, the requests and the responses that were read in it, and what the
  -- completions have made of it. The session is destroyed when no operation is under way any more; the
  -- destruction of an io_context with its handlers is no part of this.
  pub data Runs (s₀ : Session Request Response)
      : List Request → List Response → Session Request Response → Type 0 where
    started : Runs s₀ [] [] (start s₀)
    request_read :
        {rs : List Request} {ps : List Response} {s : Session Request Response}
        → Runs s₀ rs ps s
        → s.pending ≡ client_reading
        → (r : Request) (shut : Shutdowns)
        → Runs s₀
            (rs ++ r ∷ [])
            ps
            (handle_client_read none shut (record s { client_request = some r }))
    request_sent :
        {rs : List Request} {ps : List Response} {s : Session Request Response}
        → Runs s₀ rs ps s
        → s.pending ≡ server_writing
        → (shut : Shutdowns) → Runs s₀ rs ps (handle_send_to_server none shut s)
    response_read :
        {rs : List Request} {ps : List Response} {s : Session Request Response}
        → Runs s₀ rs ps s
        → s.pending ≡ server_reading
        → (p : Response) (shut : Shutdowns)
        → Runs s₀ rs
            (ps ++ p ∷ [])
            (handle_server_read none shut (record s { server_response = some p }))
    response_sent :
        {rs : List Request} {ps : List Response} {s : Session Request Response}
        → Runs s₀ rs ps s
        → s.pending ≡ client_writing
        → (shut : Shutdowns) → Runs s₀ rs ps (handle_send_to_client none shut s)
    client_read_failed :
        {rs : List Request} {ps : List Response} {s : Session Request Response}
        → Runs s₀ rs ps s
        → s.pending ≡ client_reading
        → (e : ErrorCode) (shut : Shutdowns) → Runs s₀ rs ps (handle_client_read (some e) shut s)
    send_to_server_failed :
        {rs : List Request} {ps : List Response} {s : Session Request Response}
        → Runs s₀ rs ps s
        → s.pending ≡ server_writing
        → (e : ErrorCode) (shut : Shutdowns) → Runs s₀ rs ps (handle_send_to_server (some e) shut s)
    server_read_failed :
        {rs : List Request} {ps : List Response} {s : Session Request Response}
        → Runs s₀ rs ps s
        → s.pending ≡ server_reading
        → (e : ErrorCode) (shut : Shutdowns) → Runs s₀ rs ps (handle_server_read (some e) shut s)
    send_to_client_failed :
        {rs : List Request} {ps : List Response} {s : Session Request Response}
        → Runs s₀ rs ps s
        → s.pending ≡ client_writing
        → (e : ErrorCode) (shut : Shutdowns) → Runs s₀ rs ps (handle_send_to_client (some e) shut s)
    destructed :
        {rs : List Request} {ps : List Response} {s : Session Request Response}
        → Runs s₀ rs ps s
        → s.pending ≡ nothing
        → s.destroyed ≡ false
        → (shut : Shutdowns) → Runs s₀ rs ps (destroy shut s)

  -- What was handed over is what was read.
  pub record Forwards (rs : List Request) (ps : List Response) (s : Session Request Response)
      : Type 0 where
    pub requests : s.to_server ≡ map some rs
    pub responses : s.to_client ≡ map some ps

  -- Where nothing is handed over, nothing changes.
  kept :
      {rs : List Request} {ps : List Response} {s t : Session Request Response}
      → Forwards rs ps s
      → t.to_server ≡ s.to_server
      → t.to_client ≡ s.to_client
      → Forwards rs ps t
  kept f server client = record { requests = server ∙ f.requests; responses = client ∙ f.responses }

  -- Whatever completions happen to a session, each request that was read was handed to the server
  -- once, in order, and each response to the client, with nothing between them.
  pub Runs-Forwards :
      (id : ℕ) (visitor : Bool) {rs : List Request} {ps : List Response}
      {s : Session Request Response}
      → Runs (make_session id visitor) rs ps s
      → Forwards rs ps s
  unfolding start make_session handle_client_read handle_send_to_server handle_server_read
      handle_send_to_client destroy
  Runs-Forwards id v started = record { requests = refl; responses = refl }
  Runs-Forwards id v (request_read {rs = rs} run p r shut) =
      let f = Runs-Forwards id v run in
      record { requests = rw (f.requests, map-append); responses = f.responses }
  Runs-Forwards id v (response_read {ps = ps} run p r shut) =
      let f = Runs-Forwards id v run in
      record { requests = f.requests; responses = rw (f.responses, map-append) }
  Runs-Forwards id v (request_sent run p shut) = kept (Runs-Forwards id v run) refl refl
  Runs-Forwards id v (response_sent run p shut) = kept (Runs-Forwards id v run) refl refl
  Runs-Forwards id v (client_read_failed run p e shut) = kept (Runs-Forwards id v run) refl refl
  Runs-Forwards id v (send_to_server_failed run p e shut) = kept (Runs-Forwards id v run) refl refl
  Runs-Forwards id v (server_read_failed run p e shut) = kept (Runs-Forwards id v run) refl refl
  Runs-Forwards id v (send_to_client_failed run p e shut) = kept (Runs-Forwards id v run) refl refl
  Runs-Forwards id v (destructed run p d shut) = kept (Runs-Forwards id v run) refl refl
