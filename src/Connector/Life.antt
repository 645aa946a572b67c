-- ===== src/Connector/Life.antt =====
-- The whole life of a client with LeastConnectionsSelector, in src/lb/tcp/connector.cpp: selection,
-- connection, session; and of one whose connection fails otherwise than by a refusal.
use lb.Common.{
  ℕ, suc, ◌<◌, String, true, false, ◌≡◌, refl, sym, ap, ◌∙◌, List, [], ◌∷◌, none, some, ok,
  for_each, str_eq, eq_iff, if◌then◌else◌, Bool-cases, inl, inr, size_mod, arith,
}
use lb.Platform.{Asio}
use lb.Platform.Heap.{PairingHeap}
use lb.Backend.{Backend, Endpoint, of_endpoint, of_url, to_string}
use lb.Session.{Session, ErrorCode, make_session}
use lb.Session.Lifecycle.{Runs}
use lb.Selector.{least_connections_class}
use lb.LeastConnections.{CounterWrapper, connections_compare, LeastConnections}
use lb.LeastConnections.Counts.{Linked, connections}
use lb.LeastConnections.Selection.{select_least}
use lb.Connector.{
  running, dropped, started, least_connections_callbacks, make_and_run_session, complete,
  complete_all, on_error, is_refused, least_connections_callback,
}
use lb.Connector.Callbacks.{whole_session}

module _ ⦃asio : Asio⦄ ⦃heap : PairingHeap CounterWrapper connections_compare⦄ where
  -- A client whose operations succeed comes to its session, after one of them or two.
  connected :
      (client : Endpoint) (b : Backend) (s : LeastConnections)
      → complete_all least_connections_class client (none ∷ none ∷ []) s (started b)
        ≡ (s, running b least_connections_callbacks)
  unfolding complete_all complete
  connected client (of_endpoint e) s = refl
  connected client (of_url u) s = refl

  -- The name of a count that was raised by one and is back.
  back_at :
      (b : Backend) (n : ℕ) (s t u : LeastConnections) (name : String)
      → connections s (to_string b) ≡ some n
      → connections t name
        ≡ (if str_eq (to_string b) name then some (suc n) else connections s name)
      → connections u name ≡ (if str_eq (to_string b) name then some n else connections t name)
      → connections u name ≡ connections s name
  back_at b n s t u name here raised back = elim (Bool-cases (str_eq (to_string b) name)) [
    | inl same ↦
        rw same at back
        ∙ sym here
        ∙ ap (λ (x : String). connections s x) ((eq_iff (to_string b) name).0 same)
    | inr differ ↦ rw differ at back ∙ rw differ at raised
  ]

  -- From a least-connections selector that counts a backend, linked, with its heap in order and
  -- room for two connections more, a client that is connected and whose session has run to its
  -- destruction leaves every count as it was.
  pub client_life :
      (client : Endpoint) (s : LeastConnections) (key : String) (m : ℕ)
      → Linked s
      → heap.Ordered s.backends
      → ((name : String) (n : ℕ) → connections s name ≡ some n → suc (suc n) < size_mod)
      → connections s key ≡ some m
      → {Request Response : Type 0} (id : ℕ) {rs : List Request} {ps : List Response}
        {x : Session Request Response}
      → Runs (make_session id true) rs ps x
      → x.destroyed ≡ true
      → let i = least_connections_class in
        let r = make_and_run_session i client s in
        (t : LeastConnections) × (b : Backend) × (u : LeastConnections) × (complete_all i client
            (none ∷ none ∷ [])
            r.0
            r.1
          ≡ (t, running b least_connections_callbacks))
        × (for_each (least_connections_callback b) x.notices t ≡ (u, ok tt))
        × ((name : String) → connections u name ≡ connections s name)
  unfolding make_and_run_session
  client_life client s key m l o fits some_counted id run gone =
      let (t, b, n, selects, here, least, raised, linked, ordered) =
        select_least s key m l o (λ name i h. omega (arith, fits name i h)) some_counted in
      let own : connections t (to_string b) ≡ some (suc n) =
        raised (to_string b) ∙ rw ((eq_iff (to_string b) (to_string b)).1 refl) in
      let (u, called, c) = whole_session id run gone b n t linked own (fits (to_string b) n here) in
      (
        t,
        b,
        u,
        rw selects (connected client b t),
        called,
        λ name. back_at b n s t u name here (raised name) (c.counts name),
      )

  dropped_at :
      (client : Endpoint) (b : Backend) (error : ErrorCode) (s : LeastConnections)
      → is_refused error ≡ false
      → complete least_connections_class client (some error) s (started b) ≡ (s, dropped)
  unfolding complete on_error
  dropped_at client (of_endpoint e) error s other = rw other
  dropped_at client (of_url u) error s other = rw other

  -- From a least-connections selector that counts a backend, linked, with its heap in order and
  -- room in the counters: where the connection of a client fails with another error than a refusal,
  -- the client is dropped, and the connection that the selection has counted for its backend stays
  -- counted.
  pub dropped_counts :
      (client : Endpoint) (s : LeastConnections) (key : String) (m : ℕ) (error : ErrorCode)
      → Linked s
      → heap.Ordered s.backends
      → ((name : String) (n : ℕ) → connections s name ≡ some n → suc n < size_mod)
      → connections s key ≡ some m
      → is_refused error ≡ false
      → let i = least_connections_class in
        let r = make_and_run_session i client s in
        (t : LeastConnections) × (b : Backend) × (n : ℕ) × (complete i client (some error) r.0 r.1
          ≡ (t, dropped))
        × (connections s (to_string b) ≡ some n)
        × (connections t (to_string b) ≡ some (suc n))
  unfolding make_and_run_session
  dropped_counts client s key m error l o fits some_counted other =
      let (t, b, n, selects, here, least, raised, linked, ordered) =
        select_least s key m l o fits some_counted in
      (
        t,
        b,
        n,
        rw selects (dropped_at client b error t other),
        here,
        raised (to_string b) ∙ rw ((eq_iff (to_string b) (to_string b)).1 refl),
      )
