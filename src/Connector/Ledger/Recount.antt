-- ===== src/Connector/Ledger/Recount.antt =====
-- Books of the least-connections selector of src/lb/tcp/selectors.cpp, and a change of one count.
use mathlib.Core.Option
use lb.Common.{
  ℕ, suc, ◌+◌, ◌<◌, String, true, false, ◌≡◌, sym, ap, ◌∙◌, List, none, some, arith, get_elem?, set,
  str_eq, if◌then◌else◌, Bool-cases, Option-cases, ◌⊎◌, undefined, inl, inr, some_injective,
  size_mod,
}
use lb.Platform.{Asio}
use lb.Platform.Heap.{PairingHeap}
use lb.Pool
use lb.Backend.{Backend, to_string}
use lb.LeastConnections.{CounterWrapper, connections_compare, LeastConnections, select_backend}
use lb.LeastConnections.Counts.{Linked, connections}
use lb.Connector.Ledger.{Books}
use lb.Connector.Ledger.Sums.{own, held_by, all_held, held_by-set, all_held-set}

module _ ⦃asio : Asio⦄ ⦃heap : PairingHeap CounterWrapper connections_compare⦄ where
  -- Where a backend is counted, its count is what the clients hold.
  abbrev pub Agrees : LeastConnections → List (Backend × ℕ) → Type 0
  Agrees s held = (name : String) (m : ℕ) → connections s name ≡ some m → m ≡ held_by name held

  -- The books agree, and `n` moves more do not overflow a counter.
  pub record Balanced (n : ℕ) (s : Books) : Type 0 where
    pub linked : Linked s.selector
    pub agrees : Agrees s.selector s.held
    pub room : all_held s.held + n < size_mod

  -- Where the count of one backend changes as what is held of it, the books go on agreeing.
  pub recount :
      (b : Backend) (g : ℕ → ℕ) (s t : LeastConnections) (held held' : List (Backend × ℕ))
      → ((name : String)
          → connections t name ≡ (
              if str_eq (to_string b) name
              then Option.map g (connections s name)
              else connections s name))
      → ((name : String)
          → str_eq (to_string b) name ≡ true
          → held_by name held' ≡ g (held_by name held))
      → ((name : String)
          → str_eq (to_string b) name ≡ false
          → held_by name held' ≡ held_by name held)
      → Agrees s held
      → Agrees t held'
  recount b g s t held held' counts same_name other_name agrees name m h =
      elim (Bool-cases (str_eq (to_string b) name)) [
        | inl same ↦
            here same (Option-cases (connections s name)) (sym (rw same at (counts name)) ∙ h)
        | inr differ ↦
            agrees name m (sym (rw differ at (counts name)) ∙ h) ∙ sym (other_name name differ)
      ]
    where
      here :
          str_eq (to_string b) name ≡ true
          → (connections s name ≡ none) ⊎ ((i : ℕ) × (connections s name ≡ some i))
          → Option.map g (connections s name) ≡ some m
          → m ≡ held_by name held'
      here same (inl e) h = absurd (Pool.some≢none m (rw e at h))
      here same (inr (i, e)) h =
          let raised : g i ≡ m = some_injective (rw e at h) in
          sym raised ∙ ap g (agrees name i e) ∙ sym (same_name name same)

  pub own-same :
      (name : String) (b : Backend) (k : ℕ) → str_eq (to_string b) name ≡ true → own name (b, k) ≡ k
  own-same name b k same = rw same

  pub own-other :
      (name : String) (b : Backend) (k : ℕ)
      → str_eq (to_string b) name ≡ false
      → own name (b, k) ≡ 0
  own-other name b k differ = rw differ

  pub select_empty :
      (s : LeastConnections) → heap.top s.backends ≡ none → select_backend s ≡ (s, undefined)
  unfolding select_backend
  select_empty s e = rw (e, select_backend)

  pub fewer : (n : ℕ) (s : Books) → Balanced (suc n) s → Balanced n s
  fewer n s bal = record {
    linked = bal.linked;
    agrees = bal.agrees;
    room = omega (arith, bal.room);
  }

  -- A notification that is no call of the selector.
  pub kept :
      (n j : ℕ) (b : Backend) (k : ℕ) (s : Books)
      → Balanced (suc n) s
      → get_elem? s.held j ≡ some (b, k)
      → Balanced n (record { selector = s.selector; held = set s.held j (b, k) })
  kept n j b k s bal e = record {
    linked = bal.linked;
    agrees =
        λ name m h. bal.agrees name m h ∙ omega (arith, held_by-set name s.held j (b, k) (b, k) e);
    room = omega (arith, all_held-set s.held j (b, k) (b, k) e, bal.room);
  }
