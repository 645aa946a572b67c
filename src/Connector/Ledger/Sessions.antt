-- ===== src/Connector/Ledger/Sessions.antt =====
-- The notifications of a session of src/lb/tcp/session.cpp, and what its client holds.
use lb.Common.{ℕ, suc, ◌-◌, ◌<◌, ◌≤◌, Bool, true, false, List, [], ◌∷◌, arith}
use lb.Session.{
  Session, Notice, on_connect, on_disconnect, on_response_receive, on_response_sent,
  on_request_receive, on_request_sent, make_session, Pending, client_reading, server_writing,
  server_reading, client_writing, nothing,
}
use lb.Session.Lifecycle.{Runs}
use lb.Session.FirstNotice.{Runs-Starts}
use lb.Session.Notices.{disconnects, Phase, Runs-Balanced}
use lb.Connector.Ledger.{holds_after}

-- With `k` held at first, something is held at each disconnection of a list.
abbrev pub AlwaysHolds : ℕ → List Notice → Type 0
AlwaysHolds k [] = Unit {0}
AlwaysHolds k (on_disconnect ∷ ns) = (0 < k) × AlwaysHolds (k - 1) ns
AlwaysHolds k (n ∷ ns) = AlwaysHolds (holds_after n k) ns

enough_held : (ns : List Notice) (k : ℕ) → disconnects ns ≤ k → AlwaysHolds k ns
enough_held [] k le = tt
enough_held (on_connect ∷ ns) k le = enough_held ns (suc k) (omega arith)
enough_held (on_disconnect ∷ ns) k le = (omega arith, enough_held ns (k - 1) (omega arith))
enough_held (on_response_receive ∷ ns) k le = enough_held ns k (omega arith)
enough_held (on_response_sent ∷ ns) k le = enough_held ns k (omega arith)
enough_held (on_request_receive ∷ ns) k le = enough_held ns k (omega arith)
enough_held (on_request_sent ∷ ns) k le = enough_held ns k (omega arith)

twice_at_most : (p : Pending) (destroyed : Bool) (d r q : ℕ) → Phase p destroyed d r q → d ≤ 2
twice_at_most client_reading destroyed d r q ph = omega (arith, ph.1)
twice_at_most server_writing destroyed d r q ph = omega (arith, ph.1)
twice_at_most server_reading destroyed d r q ph = omega (arith, ph.1)
twice_at_most client_writing destroyed d r q ph = omega (arith, ph.1)
twice_at_most nothing true d r q ph = omega (arith, ph.0)
twice_at_most nothing false d r q ph = omega (arith, ph.0)

module _ {Request Response : Type 0} where
  -- Whatever completions happen to a session with a visitor, whose client holds one connection from
  -- its selection, each of its calls of OnDisconnect finds one held.
  pub Runs-AlwaysHolds :
      (id : ℕ) {rs : List Request} {ps : List Response} {x : Session Request Response}
      → Runs (make_session id true) rs ps x
      → AlwaysHolds 1 x.notices
  Runs-AlwaysHolds id {x = x} run =
      let balanced = Runs-Balanced id run in
      let (rest, first) = Runs-Starts id run in
      let few : disconnects (on_connect ∷ rest) ≤ 2 =
        rw first at (twice_at_most x.pending x.destroyed _ _ _ balanced.phase) in
      rw first (enough_held rest 2 (omega arith))
