-- ===== src/Connector/Ledger/Balance.antt =====
-- The moves of the clients and the books, for the callbacks of src/lb/tcp/connector.cpp.
use mathlib.Core.Option
use lb.Common.{
  ℕ, suc, ◌-◌, ◌<◌, String, ◌≡◌, refl, sym, ◌∙◌, List, [], ◌∷◌, ◌++◌, Option, none, some, arith,
  length, get_elem?, set, str_eq, if◌then◌else◌, Bool-cases, Option-cases, inl, inr, size_mod,
}
use lb.Platform.{Asio}
use lb.Platform.Heap.{PairingHeap}
use lb.Pool
use lb.Backend.{Backend, to_string}
use lb.Session.{
  Notice, on_connect, on_disconnect, on_response_receive, on_response_sent, on_request_receive,
  on_request_sent,
}
use lb.LeastConnections.{CounterWrapper, connections_compare, LeastConnections}
use lb.LeastConnections.Counts.{connections, changed, Linked-changed, connections-changed}
use lb.LeastConnections.Selection.{counting, select_top, connections_at}
use lb.LeastConnections.Counting.{at_name, increase_any, decrease_lem}
use lb.LeastConnections.Membership.{exclude_counts}
use lb.Connector.{least_connections_callback}
use lb.Connector.Ledger.{
  Move, arrives, notifies, excludes, Books, notified, move, move_all, Backed, AllBacked,
}
use lb.Connector.Ledger.Sums.{
  held_by, held_by-le, held_by-append, all_held-append, held_by-set, all_held-set,
}
use lb.Connector.Ledger.Recount.{Balanced, recount, own-same, own-other, select_empty, fewer, kept}

module _ ⦃asio : Asio⦄ ⦃heap : PairingHeap CounterWrapper connections_compare⦄ where
  arrives-Balanced : (n : ℕ) (s : Books) → Balanced (suc n) s → Balanced n (move arrives s)
  unfolding move
  arrives-Balanced n s bal = elim (Option-cases (heap.top s.selector.backends)) [
    | inl empty ↦
        rw (select_empty s.selector empty)
          (record { linked = bal.linked; agrees = bal.agrees; room = omega (arith, bal.room) })
    | inr (w, is_top) ↦
        let (k, at_k) = heap.top_at s.selector.backends w is_top in
        let found = bal.linked.pooled k w at_k in
        let here = connections_at k w s.selector at_k found in
        let few = held_by-le (to_string w.b) s.held in
        let count = bal.agrees (to_string w.b) w.counter here in
        let new : CounterWrapper = counting w (suc w.counter) in
        let t : LeastConnections = changed k new s.selector in
        let held : List (Backend × ℕ) = s.held ++ (w.b, 1) ∷ [] in
        rw (select_top k w s.selector is_top at_k found (omega (arith, count, few, bal.room)))
          (record {
            linked = Linked-changed k w new s.selector at_k bal.linked refl;
            agrees =
                recount w.b suc s.selector t s.held held
                  (λ name.
                    connections-changed k w new s.selector at_k bal.linked name
                    ∙ at_name w.b s.selector name (some w.counter) (Option.map suc) here)
                  (λ name same.
                    held_by-append name s.held ((w.b, 1) ∷ [])
                    ∙ omega (arith, own-same name w.b 1 same))
                  (λ name differ.
                    held_by-append name s.held ((w.b, 1) ∷ [])
                    ∙ omega (arith, own-other name w.b 1 differ))
                  bal.agrees;
            room = omega (arith, all_held-append s.held ((w.b, 1) ∷ []), bal.room);
          })
  ]

  -- The notifier calls the selector, and the client holds as much more or less.
  notified-Balanced :
      (n j : ℕ) (note : Notice) (b : Backend) (k : ℕ) (s : Books)
      → Balanced (suc n) s
      → get_elem? s.held j ≡ some (b, k)
      → Backed (notifies j note) s
      → Balanced n (notified j note (b, k) s)
  unfolding least_connections_callback
  notified-Balanced n j on_connect b k s bal e backed =
      let fits : (name : String) (i : ℕ) → connections s.selector name ≡ some i → suc i < size_mod =
        (λ name i h. omega (arith, bal.agrees name i h, held_by-le name s.held, bal.room)) in
      let (t, called, counts, linked) = increase_any b s.selector bal.linked fits in
      let held : List (Backend × ℕ) = set s.held j (b, suc k) in
      rw called (record {
        linked = linked;
        agrees =
            recount b suc s.selector t s.held held counts
              (λ name same. omega (
                arith,
                held_by-set name s.held j (b, k) (b, suc k) e,
                own-same name b k same,
                own-same name b (suc k) same,
              ))
              (λ name differ. omega (
                arith,
                held_by-set name s.held j (b, k) (b, suc k) e,
                own-other name b k differ,
                own-other name b (suc k) differ,
              ))
              bal.agrees;
        room = omega (arith, all_held-set s.held j (b, k) (b, suc k) e, bal.room);
      })
  notified-Balanced n j on_disconnect b k s bal e backed =
      let holds : 0 < k = rw e at backed in
      let (t, called, counts, linked) = decrease_lem b s.selector bal.linked in
      let held : List (Backend × ℕ) = set s.held j (b, k - 1) in
      rw called (record {
        linked = linked;
        agrees =
            recount b (λ n. n - 1) s.selector t s.held held counts
              (λ name same. omega (
                arith,
                holds,
                held_by-set name s.held j (b, k) (b, k - 1) e,
                own-same name b k same,
                own-same name b (k - 1) same,
              ))
              (λ name differ. omega (
                arith,
                held_by-set name s.held j (b, k) (b, k - 1) e,
                own-other name b k differ,
                own-other name b (k - 1) differ,
              ))
              bal.agrees;
        room = omega (arith, all_held-set s.held j (b, k) (b, k - 1) e, bal.room);
      })
  notified-Balanced n j on_response_receive b k s bal e backed = kept n j b k s bal e
  notified-Balanced n j on_response_sent b k s bal e backed = kept n j b k s bal e
  notified-Balanced n j on_request_receive b k s bal e backed = kept n j b k s bal e
  notified-Balanced n j on_request_sent b k s bal e backed = kept n j b k s bal e

  excludes-Balanced :
      (n : ℕ) (b : Backend) (s : Books) → Balanced (suc n) s → Balanced n (move (excludes b) s)
  unfolding move
  excludes-Balanced n b s bal =
      let (counts, linked) = exclude_counts b s.selector bal.linked in
      record {
        linked = linked;
        agrees = λ name m h. left name m (counts name) h;
        room = omega (arith, bal.room);
      }
    where
      left :
          (name : String) (m : ℕ) {o : Option ℕ}
          → o ≡ (if str_eq (to_string b) name then none else connections s.selector name)
          → o ≡ some m
          → m ≡ held_by name s.held
      left name m c h = elim (Bool-cases (str_eq (to_string b) name)) [
        | inl same ↦ absurd (Pool.some≢none m (sym (rw same at c) ∙ h))
        | inr differ ↦ bal.agrees name m (sym (rw differ at c) ∙ h)
      ]

  move-Balanced :
      (n : ℕ) (m : Move) (s : Books) → Balanced (suc n) s → Backed m s → Balanced n (move m s)
  unfolding move
  move-Balanced n arrives s bal backed = arrives-Balanced n s bal
  move-Balanced n (notifies j note) s bal backed = elim (Option-cases (get_elem? s.held j)) [
    | inl e ↦ rw (e, move) (fewer n s bal)
    | inr (c, e) ↦ rw (e, move) (notified-Balanced n j note c.0 c.1 s bal e backed)
  ]
  move-Balanced n (excludes b) s bal backed = excludes-Balanced n b s bal

  -- From a linked least-connections selector whose counts are what the clients hold, with room for
  -- as many connections more as moves, whatever clients arrive, connect, disconnect and exclude
  -- backends, in whatever order, where no client's session disconnects that holds nothing: the
  -- count of each backend that is still counted is the sum of what the clients hold of it. A client
  -- holds one from its selection on, one more after OnConnect, and one less after each
  -- OnDisconnect.
  pub move_all-Balanced :
      (ms : List Move) (s : Books)
      → Balanced (length ms) s
      → AllBacked ms s
      → Balanced 0 (move_all ms s)
  unfolding move_all AllBacked
  move_all-Balanced [] s bal backed = bal
  move_all-Balanced (m ∷ ms) s bal backed =
      move_all-Balanced ms (move m s) (move-Balanced (length ms) m s bal backed.0) backed.1
