-- ===== src/Acceptor/Tests.antt =====
-- Two clients, one that is gone, an error, and what comes too late.
use lb.Common.{String, ◌≡◌, false, [], ◌∷◌, not_connected}
use lb.Session.{other}
use lb.Acceptor.{failed, accepted, vanished, listening, do_accept, accept_all}
use lb.Acceptor.Accepted.{state, accept_all_lem}

accept_all_lem_example :
    accept_all {Client = String}
      (accepted "a"
        ∷ vanished "b" not_connected
        ∷ accepted "c"
        ∷ failed (other 1)
        ∷ accepted "d"
        ∷ [])
      (do_accept listening)
    ≡ state false ("a" ∷ "c" ∷ []) (not_connected ∷ [])
accept_all_lem_example = accept_all_lem (
    accepted "a" ∷ vanished "b" not_connected ∷ accepted "c" ∷ failed (other 1) ∷ accepted "d" ∷ [])
