-- ===== src/LeastConnections/Selection.antt =====
-- Which backend SelectBackend of the least-connections selector returns, and what the calls that
-- count do to the counts.
use native.Mathlib.Nat.{mod-eq_of_lt}
use lb.Common.{
  ℕ, suc, ◌+◌, ◌%◌, ◌<◌, ◌≤◌, String, false, ◌≡◌, refl, sym, ap, ◌∙◌, Option, none, some, ok, arith,
  str_eq, if◌then◌else◌, Option-cases, ◌⊎◌, inl, inr, some_injective, ltb, size_mod, subst,
}
use lb.Common.Assoc
use lb.Platform.{Asio}
use lb.Platform.Heap.{PairingHeap}
use lb.Backend.{Backend, to_string}
use lb.LeastConnections.{
  CounterWrapper, connections_compare, LeastConnections, count_up, increase_connection_count,
  select_backend,
}
use lb.Pool
use lb.LeastConnections.Counts.{
  name_of, Linked, connections, changed, Linked-changed, connections-changed,
}

not_less : (a b : ℕ) → ltb b a ≡ false → a ≤ b
not_less a b h = ground arith

module _ ⦃asio : Asio⦄ where
  abbrev pub counting : CounterWrapper → ℕ → CounterWrapper
  counting w n = record w { counter = n }

  -- One connection more is not greater for the heap, whose top has the fewest.
  more_not_greater :
      (w : CounterWrapper)
      → suc w.counter < size_mod
      → connections_compare w (counting w ((w.counter + 1) % size_mod)) ≡ false
  more_not_greater w h =
      rw (mod-eq_of_lt (let e : w.counter + 1 < size_mod = omega arith in e)) (ground arith)

module _ ⦃asio : Asio⦄ ⦃heap : PairingHeap CounterWrapper connections_compare⦄ where
  -- What is counted for a name stands in the heap, under the handle of that name.
  pub counted :
      (s : LeastConnections) (key : String) (m : ℕ)
      → connections s key ≡ some m
      → (j : heap.Handle) × (x : CounterWrapper) × (Assoc.find key s.handle_pool ≡ some j)
        × (heap.at j s.backends ≡ some x)
        × (x.counter ≡ m)
  counted s key m h = here (Option-cases (Pool.entry heap name_of s.handle_pool s.backends key)) h
    where
      here :
          (Pool.entry heap name_of s.handle_pool s.backends key ≡ none)
            ⊎ ((x : CounterWrapper) × (Pool.entry heap name_of s.handle_pool s.backends key
                  ≡ some x))
          → connections s key ≡ some m
          → (j : heap.Handle) × (x : CounterWrapper) × (Assoc.find key s.handle_pool ≡ some j)
            × (heap.at j s.backends ≡ some x)
            × (x.counter ≡ m)
      here (inl gone) h = let none_counted : ◌≡◌ {A = Option ℕ} none (some m) = rw gone at h in cc
      here (inr (x, there)) h =
          let (j, found, at_j) =
            Pool.entry-some heap name_of s.handle_pool s.backends key x there in
          (j, x, found, at_j, some_injective (rw there at h))

  -- The element of a handle counts one connection more.
  pub count_up_lem :
      (k : heap.Handle) (w : CounterWrapper) (s : LeastConnections)
      → heap.at k s.backends ≡ some w
      → suc w.counter < size_mod
      → count_up k s ≡ (changed k (counting w (suc w.counter)) s, ok tt)
  unfolding count_up
  count_up_lem k w s at_k fits =
      rw (at_k, count_up)
        (rw (mod-eq_of_lt (let e : w.counter + 1 < size_mod = omega arith in e))
          (ap (λ (n : ℕ). (changed k (counting w n) s, ok tt)) (omega arith)))

  pub Ordered-count_up :
      (k : heap.Handle) (w : CounterWrapper) (s : LeastConnections)
      → heap.Ordered s.backends
      → heap.at k s.backends ≡ some w
      → heap.Ordered (changed k (counting w (suc w.counter)) s).backends
  Ordered-count_up k w s o at_k =
      heap.Ordered_decrease k w (counting w (suc w.counter)) s.backends o at_k (ground arith)

  -- The increment that SelectBackend makes for the top of the heap.
  pub select_top :
      (k : heap.Handle) (w : CounterWrapper) (s : LeastConnections)
      → heap.top s.backends ≡ some w
      → heap.at k s.backends ≡ some w
      → Assoc.find (to_string w.b) s.handle_pool ≡ some k
      → suc w.counter < size_mod
      → select_backend s ≡ (changed k (counting w (suc w.counter)) s, ok w.b)
  unfolding select_backend
  select_top k w s is_top at_k found fits =
      rw (is_top, select_backend)
        (rw (found, increase_connection_count) (rw (count_up_lem k w s at_k fits)))

  pub connections_at :
      (k : heap.Handle) (w : CounterWrapper) (s : LeastConnections)
      → heap.at k s.backends ≡ some w
      → Assoc.find (to_string w.b) s.handle_pool ≡ some k
      → connections s (to_string w.b) ≡ some w.counter
  connections_at k w s at_k found = rw found (rw at_k)

  -- The top of a heap in order has the fewest connections.
  top_least :
      (w : CounterWrapper) (s : LeastConnections) (name : String) (i : ℕ)
      → heap.Ordered s.backends
      → heap.top s.backends ≡ some w
      → connections s name ≡ some i
      → w.counter ≤ i
  top_least w s name i o is_top h =
      let (j, x, found, at_j, n) = counted s name i h in
      subst (λ (i : ℕ). w.counter ≤ i) n
        (not_less w.counter x.counter (heap.top_greatest s.backends w x j o is_top at_j))

  -- From a selector that counts at least one backend, linked and with its heap in order and room in
  -- the counters, SelectBackend returns a backend with the fewest connections, counts one more for
  -- it, leaves the other counts, and keeps the selector linked and in order.
  pub select_least :
      (s : LeastConnections) (key : String) (m : ℕ)
      → Linked s
      → heap.Ordered s.backends
      → ((name : String) (n : ℕ) → connections s name ≡ some n → suc n < size_mod)
      → connections s key ≡ some m
      → (t : LeastConnections) × (b : Backend) × (n : ℕ) × (select_backend s ≡ (t, ok b))
        × (connections s (to_string b) ≡ some n)
        × ((name : String) (i : ℕ) → connections s name ≡ some i → n ≤ i)
        × ((name : String)
            → connections t name
              ≡ (if str_eq (to_string b) name then some (suc n) else connections s name))
        × Linked t
        × heap.Ordered t.backends
  select_least s key m l o fits some_counted = elim (Option-cases (heap.top s.backends)) [
    | inl empty ↦
        let (j, x, found, at_j, n) = counted s key m some_counted in
        absurd (none≢some x (sym (heap.top_none s.backends j empty) ∙ at_j))
    | inr (w, is_top) ↦
        let (k, at_k) = heap.top_at s.backends w is_top in
        let found = l.pooled k w at_k in
        let n = connections_at k w s at_k found in
        (
          changed k (counting w (suc w.counter)) s,
          w.b,
          w.counter,
          select_top k w s is_top at_k found (fits (to_string w.b) w.counter n),
          n,
          λ name i h. top_least w s name i o is_top h,
          λ name. connections-changed k w (counting w (suc w.counter)) s at_k l name,
          Linked-changed k w (counting w (suc w.counter)) s at_k l refl,
          Ordered-count_up k w s o at_k,
        )
  ]
    where
      none≢some : (x : CounterWrapper) → ◌≡◌ {A = Option CounterWrapper} none (some x) → ⊥
      none≢some x p = cc
