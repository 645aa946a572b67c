-- ===== src/LeastConnections/Specification.antt =====
-- LeastConnectionsSelector of src/lb/tcp/selectors.cpp without handles and heap: a map from names to
-- counts, and the calls that serve clients and take nothing from a count.
use mathlib.Core.Option
use lb.Common.{
  ℕ, suc, ◌≤◌, String, Bool, true, false, ◌≡◌, List, [], ◌∷◌, Option, none, some, Outcome, ok,
  throws, undefined, all_excluded, str_eq, if◌then◌else◌,
}
use lb.Platform.{Asio}
use lb.Platform.Heap.{PairingHeap}
use lb.Backend.{Backend, to_string}
use lb.LeastConnections.{
  CounterWrapper, connections_compare, LeastConnections, increase_connection_count, select_backend,
  exclude_backend,
}

-- The count of a name, if it has one.
abbrev pub Counts : Type 0
Counts = String → Option ℕ

module _ ⦃asio : Asio⦄ where
  -- SelectBackend, IncreaseConnectionCount and ExcludeBackend.
  pub data Call : Type 0 where
    select : Call
    increase exclude : Backend → Call

  -- What a call answers; `all_gone` is the exception of the last exclusion.
  pub data Reply : Type 0 where
    chosen : Backend → Reply
    done all_gone : Reply

  abbrev pub is_last : Reply → Bool
  is_last all_gone = true
  is_last _ = false

  -- A call of the specification: a selection answers any name with the fewest connections.
  pub data Step : Counts → Call → Reply → Counts → Type 0 where
    selects :
        {m m' : Counts} (b : Backend) (n : ℕ)
        → m (to_string b) ≡ some n
        → ((name : String) (i : ℕ) → m name ≡ some i → n ≤ i)
        → ((name : String) → m' name ≡ (if str_eq (to_string b) name then some (suc n) else m name))
        → Step m select (chosen b) m'
    increases :
        {m m' : Counts} (b : Backend)
        → ((name : String)
            → m' name ≡ (if str_eq (to_string b) name then Option.map suc (m name) else m name))
        → Step m (increase b) done m'
    excludes :
        {m m' : Counts} (b : Backend) (key : String) (n : ℕ)
        → ((name : String) → m' name ≡ (if str_eq (to_string b) name then none else m name))
        → m' key ≡ some n
        → Step m (exclude b) done m'
    excludes_last :
        {m m' : Counts} (b : Backend)
        → ((name : String) → m' name ≡ (if str_eq (to_string b) name then none else m name))
        → ((name : String) → m' name ≡ none)
        → Step m (exclude b) all_gone m'

  -- The calls of a list, up to the exception.
  pub data Follows : Counts → List Call → List Reply → Counts → Type 0 where
    finished : {m : Counts} → Follows m [] [] m
    ends :
        {m m' : Counts} {c : Call} (cs : List Call)
        → Step m c all_gone m'
        → Follows m (c ∷ cs) (all_gone ∷ []) m'
    goes :
        {m m' m'' : Counts} {c : Call} {r : Reply} {cs : List Call} {rs : List Reply}
        → Step m c r m'
        → is_last r ≡ false
        → Follows m' cs rs m''
        → Follows m (c ∷ cs) (r ∷ rs) m''

module _ ⦃asio : Asio⦄ ⦃heap : PairingHeap CounterWrapper connections_compare⦄ where
  abbrev pub answered : LeastConnections × Outcome (Unit {0}) → LeastConnections × Outcome Reply
  answered (s, ok u) = (s, ok done)
  answered (s, throws all_excluded) = (s, ok all_gone)
  answered (s, throws e) = (s, throws e)
  answered (s, undefined) = (s, undefined)

  abbrev pub chose : LeastConnections × Outcome Backend → LeastConnections × Outcome Reply
  chose (s, ok b) = (s, ok (chosen b))
  chose (s, throws e) = (s, throws e)
  chose (s, undefined) = (s, undefined)

  -- The call on the selector.
  unfoldable pub perform : Call → LeastConnections → LeastConnections × Outcome Reply
  unfolding select_backend increase_connection_count exclude_backend
  perform select s = chose (select_backend s)
  perform (increase b) s = answered (increase_connection_count b s)
  perform (exclude b) s = answered (exclude_backend b s)

  abbrev pub add_reply :
      Reply → LeastConnections × Outcome (List Reply) → LeastConnections × Outcome (List Reply)
  add_reply r (s, ok rs) = (s, ok (r ∷ rs))
  add_reply r (s, throws e) = (s, throws e)
  add_reply r (s, undefined) = (s, undefined)

  -- What follows a call, unless it was the exception.
  abbrev pub proceed :
      LeastConnections × Outcome Reply
      → (LeastConnections → LeastConnections × Outcome (List Reply))
      → LeastConnections × Outcome (List Reply)
  proceed (s, ok r) rest = if is_last r then (s, ok (r ∷ [])) else add_reply r (rest s)
  proceed (s, throws e) rest = (s, throws e)
  proceed (s, undefined) rest = (s, undefined)

  -- The calls of a list on the selector, up to the exception.
  unfoldable pub perform_all :
      List Call → LeastConnections → LeastConnections × Outcome (List Reply)
  unfolding perform
  perform_all [] s = (s, ok [])
  perform_all (c ∷ cs) s = proceed (perform c s) (perform_all cs)
