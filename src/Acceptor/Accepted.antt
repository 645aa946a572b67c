-- ===== src/Acceptor/Accepted.antt =====
-- Which clients the connector gets.
use mathlib.Core.List.{append-nil, append_assoc}
use lb.Common.{Bool, true, false, ◌≡◌, refl, List, [], ◌∷◌, ◌++◌, Exception}
use lb.Acceptor.{
  Completion, failed, accepted, vanished, Acceptor, listening, do_accept, completion, accept_all,
}

module _ {Client : Type 0} where
  -- The clients before the first error that are there when they are handed over.
  abbrev pub before_error : List (Completion Client) → List Client
  before_error [] = []
  before_error (failed error ∷ es) = []
  before_error (accepted client ∷ es) = client ∷ before_error es
  before_error (vanished client exception ∷ es) = before_error es

  -- The exceptions before the first error.
  abbrev pub thrown_before_error : List (Completion Client) → List Exception
  thrown_before_error [] = []
  thrown_before_error (failed error ∷ es) = []
  thrown_before_error (accepted client ∷ es) = thrown_before_error es
  thrown_before_error (vanished client exception ∷ es) = exception ∷ thrown_before_error es

  abbrev pub no_error : List (Completion Client) → Bool
  no_error [] = true
  no_error (failed error ∷ es) = false
  no_error (accepted client ∷ es) = no_error es
  no_error (vanished client exception ∷ es) = no_error es

  abbrev pub state : Bool → List Client → List Exception → Acceptor Client
  state up cs xs = record { is_open = up; accepting = up; handed = cs; thrown = xs }

  closed_stays :
      (es : List (Completion Client)) (cs : List Client) (xs : List Exception)
      → accept_all es (state false cs xs) ≡ state false cs xs
  unfolding accept_all completion
  closed_stays [] cs xs = refl
  closed_stays (e ∷ es) cs xs = closed_stays es cs xs

  accepted_from :
      (es : List (Completion Client)) (cs : List Client) (xs : List Exception)
      → accept_all es (state true cs xs)
        ≡ state (no_error es) (cs ++ before_error es) (xs ++ thrown_before_error es)
  unfolding accept_all
  accepted_from [] cs xs = rw (append-nil cs, append-nil xs)
  accepted_from (failed error ∷ es) cs xs =
      rw (append-nil cs, append-nil xs) (closed_stays es cs xs)
  accepted_from (accepted client ∷ es) cs xs =
      rw append_assoc at (accepted_from es (cs ++ client ∷ []) xs)
  accepted_from (vanished client exception ∷ es) cs xs =
      rw append_assoc at (accepted_from es cs (xs ++ exception ∷ []))

  -- Whatever the completions, the connector gets each client that was accepted before the first
  -- error and is still there once, in order, and none after it; the exceptions of the others leave
  -- the handler. Up to the error the acceptor is open and an async_accept is under way, and the
  -- error closes it.
  pub accept_all_lem :
      (es : List (Completion Client))
      → accept_all es (do_accept listening)
        ≡ state (no_error es) (before_error es) (thrown_before_error es)
  unfolding listening do_accept
  accept_all_lem es = accepted_from es [] []
