-- ===== src/Connector/Callbacks.antt =====
-- What the notifications of a session do to the counts of the least-connections selector.
use mathlib.Core.Option
use lb.Common.{
  ℕ, suc, ◌+◌, ◌-◌, ◌<◌, ◌≤◌, String, Bool, true, false, ◌≡◌, refl, sym, ap, ◌∙◌, List, [], ◌∷◌,
  Option, some, ok, arith, str_eq, eq_iff, if◌then◌else◌, Bool-cases, inl, inr, size_mod, for_each,
}
use lb.Platform.{Asio}
use lb.Platform.Heap.{PairingHeap}
use lb.Backend.{Backend, to_string}
use lb.Session.{
  Session, Notice, on_connect, on_disconnect, on_response_receive, on_response_sent,
  on_request_receive, on_request_sent, make_session, Pending, client_reading, server_writing,
  server_reading, client_writing, nothing,
}
use lb.Session.Lifecycle.{Runs}
use lb.Session.FirstNotice.{Runs-Starts}
use lb.Session.Notices.{connects, disconnects, Phase, Runs-Balanced}
use lb.LeastConnections.{CounterWrapper, connections_compare, LeastConnections}
use lb.LeastConnections.Counts.{Linked, connections}
use lb.LeastConnections.Counting.{increase_lem, decrease_lem}
use lb.Connector.{least_connections_callback}

apart : {b : Bool} → b ≡ true → b ≡ false → ⊥
apart p q = cc

-- What a list of notifications makes of a count.
abbrev counted_by : ℕ → List Notice → ℕ
counted_by m [] = m
counted_by m (on_connect ∷ ns) = counted_by (suc m) ns
counted_by m (on_disconnect ∷ ns) = counted_by (m - 1) ns
counted_by m (_ ∷ ns) = counted_by m ns

-- Where the count is at least the number of disconnections, none of them is lost.
counted_by_lem :
    (ns : List Notice) (m : ℕ)
    → disconnects ns ≤ m
    → counted_by m ns + disconnects ns ≡ m + connects ns
counted_by_lem [] m le = refl
counted_by_lem (on_connect ∷ ns) m le =
    let ih = counted_by_lem ns (suc m) (omega arith) in omega arith
counted_by_lem (on_disconnect ∷ ns) m le =
    let ih = counted_by_lem ns (m - 1) (omega arith) in omega arith
counted_by_lem (on_response_receive ∷ ns) m le =
    let ih = counted_by_lem ns m (omega arith) in omega arith
counted_by_lem (on_response_sent ∷ ns) m le =
    let ih = counted_by_lem ns m (omega arith) in omega arith
counted_by_lem (on_request_receive ∷ ns) m le =
    let ih = counted_by_lem ns m (omega arith) in omega arith
counted_by_lem (on_request_sent ∷ ns) m le =
    let ih = counted_by_lem ns m (omega arith) in omega arith

module _ ⦃asio : Asio⦄ ⦃heap : PairingHeap CounterWrapper connections_compare⦄ where
  -- Only the count of the backend has become `n`.
  pub record CountIs (b : Backend) (n : ℕ) (s t : LeastConnections) : Type 0 where
    pub linked : Linked t
    pub counts :
        (name : String)
        → connections t name ≡ (if str_eq (to_string b) name then some n else connections s name)

  CountIs-refl :
      (b : Backend) (n : ℕ) (s : LeastConnections)
      → Linked s
      → connections s (to_string b) ≡ some n
      → CountIs b n s s
  CountIs-refl b n s l e = record {
    linked = l;
    counts = λ name. (elim (Bool-cases (str_eq (to_string b) name)) [
      | inl same ↦
          rw same
            (sym (ap (λ (t : String). connections s t) ((eq_iff (to_string b) name).0 same)) ∙ e)
      | inr differ ↦ rw differ
    ]);
  }

  CountIs-trans :
      (b : Backend) (m n : ℕ) (s t u : LeastConnections)
      → CountIs b m s t
      → CountIs b n t u
      → CountIs b n s u
  CountIs-trans b m n s t u first second = record {
    linked = second.linked;
    counts = λ name. (elim (Bool-cases (str_eq (to_string b) name)) [
      | inl same ↦ rw same (rw same at (second.counts name))
      | inr differ ↦
          rw differ ((rw differ at (second.counts name)) ∙ (rw differ at (first.counts name)))
    ]);
  }

  own_count :
      (b : Backend) (n : ℕ) (s t : LeastConnections)
      → CountIs b n s t
      → connections t (to_string b) ≡ some n
  own_count b n s t c = rw ((eq_iff (to_string b) (to_string b)).1 refl) at (c.counts (to_string b))

  -- The calls of a list of notifications, on a selector that counts the backend.
  notified :
      (b : Backend) (ns : List Notice) (m : ℕ) (s : LeastConnections)
      → Linked s
      → connections s (to_string b) ≡ some m
      → m + connects ns < size_mod
      → (t : LeastConnections) × (for_each (least_connections_callback b) ns s ≡ (t, ok tt))
        × CountIs b (counted_by m ns) s t
  unfolding for_each least_connections_callback
  notified b [] m s l e fits = (s, refl, CountIs-refl b m s l e)
  notified b (on_connect ∷ ns) m s l e fits =
      let (u, called, counts, linked) = increase_lem b m s l e (omega arith) in
      let c : CountIs b (suc m) s u = record { linked = linked; counts = counts } in
      let (t, rest, c') =
        notified b ns (suc m) u linked (own_count b (suc m) s u c) (omega arith) in
      (t, rw called rest, CountIs-trans b (suc m) (counted_by (suc m) ns) s u t c c')
  notified b (on_disconnect ∷ ns) m s l e fits =
      let (u, called, counts, linked) = decrease_lem b s l in
      let c : CountIs b (m - 1) s u = record {
        linked = linked;
        counts = λ name. one_less name (counts name);
      } in
      let (t, rest, c') =
        notified b ns (m - 1) u linked (own_count b (m - 1) s u c) (omega arith) in
      (t, rw called rest, CountIs-trans b (m - 1) (counted_by (m - 1) ns) s u t c c')
    where
      one_less :
          (name : String) {o : Option ℕ}
          → o ≡ (
              if str_eq (to_string b) name
              then Option.map (λ n. n - 1) (connections s name)
              else connections s name)
          → o ≡ (if str_eq (to_string b) name then some (m - 1) else connections s name)
      one_less name h = elim (Bool-cases (str_eq (to_string b) name)) [
        | inl same ↦
            let here : connections s name ≡ some m =
              sym (ap (λ (t : String). connections s t) ((eq_iff (to_string b) name).0 same)) ∙ e in
            rw same ((rw same at h) ∙ ap (Option.map (λ n. n - 1)) here)
        | inr differ ↦ rw differ (rw differ at h)
      ]
  notified b (on_response_receive ∷ ns) m s l e fits = notified b ns m s l e (omega arith)
  notified b (on_response_sent ∷ ns) m s l e fits = notified b ns m s l e (omega arith)
  notified b (on_request_receive ∷ ns) m s l e fits = notified b ns m s l e (omega arith)
  notified b (on_request_sent ∷ ns) m s l e fits = notified b ns m s l e (omega arith)

module _ ⦃asio : Asio⦄ ⦃heap : PairingHeap CounterWrapper connections_compare⦄
    {Request Response : Type 0} where
  -- From a linked least-connections selector that counts n + 1 connections for the backend, as
  -- SelectBackend leaves it, with room for one more, a session that has run to its destruction
  -- returns the count to n and leaves the other counts: OnConnect adds one, and the two calls of
  -- OnDisconnect take back both.
  pub whole_session :
      (id : ℕ) {rs : List Request} {ps : List Response} {x : Session Request Response}
      → Runs (make_session id true) rs ps x
      → x.destroyed ≡ true
      → (b : Backend) (n : ℕ) (s : LeastConnections) → Linked s
      → connections s (to_string b) ≡ some (suc n)
      → suc (suc n) < size_mod
      → (t : LeastConnections) × (for_each (least_connections_callback b) x.notices s ≡ (t, ok tt))
        × CountIs b n s t
  whole_session id {x = x} run gone b n s l e fits =
      let balanced = Runs-Balanced id run in
      let (rest, first) = Runs-Starts id run in
      let one : connects (on_connect ∷ rest) ≡ 1 = rw first at balanced.connected in
      let (t, called, c) = notified b (on_connect ∷ rest) (suc n) s l e (omega (arith, one)) in
      let two : disconnects x.notices ≡ 2 = ended x.pending _ _ balanced.phase in
      let two' : disconnects (on_connect ∷ rest) ≡ 2 = rw first at two in
      let back : counted_by (suc (suc n)) rest ≡ n =
        (let sum = counted_by_lem rest (suc (suc n)) (omega arith) in omega arith) in
      (t, rw first called, rw back at c)
    where
      ended : (p : Pending) (r q : ℕ) {d : ℕ} → Phase p x.destroyed d r q → d ≡ 2
      ended client_reading r q ph = absurd (apart gone ph.0)
      ended server_writing r q ph = absurd (apart gone ph.0)
      ended server_reading r q ph = absurd (apart gone ph.0)
      ended client_writing r q ph = absurd (apart gone ph.0)
      ended nothing r q ph = rw gone at ph.0
