-- ===== src/Connector/Clients/Quiet.antt =====
-- How many completions the clients of src/lb/tcp/connector.cpp cause.
use native.Mathlib.Nat.{suc-mul, add-mul}
use lb.Common.{
  ℕ, suc, ◌+◌, ◌*◌, ◌≤◌, ◌≡◌, refl, inl, inr, true, false, not, List, [], ◌∷◌, arith, Bool-cases,
  length, if◌then◌else◌,
}
use lb.Platform.{Asio}
use lb.Backend.{Endpoint}
use lb.Selector.{ISelector}
use lb.Connector.{
  Progress, connecting, resolving, connecting_resolved, running, dropped, failed, broken,
}
use lb.Connector.Clients.{
  Clients, Event, arrival, completion, is_waiting, arrive, handle, handle_all, completes, any_waits,
  is_quiet,
}
use lb.Connector.Clients.Shared.{Shares, Serves, Below, left}
use lb.Connector.Clients.Handlers.{left-waiting}
use lb.Connector.Clients.Totals.{Sound, due, total, total-le}
use lb.Connector.Clients.Safety.{
  Sound-arrive, Advances-completion, handle-idle, handle-stopped, arrive-on, completes-client,
}

module _ ⦃asio : Asio⦄ where
  -- How many clients arrive.
  abbrev pub arrivals : List Event → ℕ
  arrivals [] = 0
  arrivals (arrival client ∷ es) = suc (arrivals es)
  arrivals (completion j r ∷ es) = arrivals es

module _ ⦃asio : Asio⦄ (i : ISelector) where
  -- How many of the events complete an operation.
  unfoldable pub completed : List Event → Clients i → ℕ
  unfolding handle
  completed [] s = 0
  completed (e ∷ es) s =
      let later = completed es (handle i e s) in if completes i e s then suc later else later

  -- No client arrives, and as long as an operation is under way each event completes one.
  unfoldable pub Attentive : List Event → Clients i → Type 0
  unfolding handle
  Attentive [] s = Unit {0}
  Attentive (arrival client ∷ es) s = ⊥
  Attentive (completion j r ∷ es) s =
      (is_quiet i s ≡ false → completes i (completion j r) s ≡ true)
      × Attentive es (handle i (completion j r) s)

module _ ⦃asio : Asio⦄ {i : ISelector} (law : Shares i) where
  none_waits :
      (cs : List (Endpoint × Progress)) (s : i.State)
      → Serves law s
      → total law s cs ≤ 0
      → any_waits i cs ≡ false
  none_waits [] s serves none_due = refl
  none_waits (c ∷ cs) s serves none_due = elim (Bool-cases (is_waiting c.1)) [
    | inl w ↦ absurd (let some_left = left-waiting law s c.1 serves w in omega arith)
    | inr w ↦ rw (w, none_waits cs s serves (omega arith))
  ]

  quiet-due : (s : Clients i) → Sound law s → due law s ≤ 0 → is_quiet i s ≡ true
  quiet-due s sound none_due = elim (Bool-cases s.stopped) [
    | inl off ↦ rw off
    | inr on ↦ rw (on, none_waits s.clients s.selector (sound.serves on) (rw on at none_due))
  ]

  left-idle : (p : Progress) (s : i.State) → is_waiting p ≡ false → left law s p ≤ 0
  left-idle (connecting b) s w = cc
  left-idle (resolving b) s w = cc
  left-idle (connecting_resolved b) s w = cc
  left-idle (running b v) s w = omega arith
  left-idle dropped s w = omega arith
  left-idle (failed e) s w = omega arith
  left-idle broken s w = omega arith

  total-idle :
      (cs : List (Endpoint × Progress)) (s : i.State) → any_waits i cs ≡ false → total law s cs ≤ 0
  total-idle [] s h = omega arith
  total-idle (c ∷ cs) s h =
      omega (arith, left-idle c.1 s (ground arith), total-idle cs s (ground arith))

  due-quiet : (s : Clients i) → is_quiet i s ≡ true → due law s ≤ 0
  due-quiet s quiet = elim (Bool-cases s.stopped) [
    | inl off ↦ rw off (omega arith)
    | inr on ↦ rw on (
        total-idle s.clients s.selector
          (let none_waits : not (any_waits i s.clients) ≡ true = rw on at quiet in ground arith))
  ]

  due-le : (s : Clients i) → due law s ≤ length s.clients * (2 * law.size s.selector + 2)
  due-le s = elim (Bool-cases s.stopped) [
    | inl off ↦ rw off (omega arith)
    | inr on ↦ rw on (total-le law s.clients s.selector)
  ]

  rests :
      (es : List Event) (s : Clients i)
      → Sound law s
      → due law s ≤ length es
      → Attentive i es s
      → is_quiet i (handle_all i es s) ≡ true
  unfolding handle_all Attentive
  rests [] s sound le att = quiet-due s sound le
  rests (arrival client ∷ es) s sound le att = absurd att
  rests (completion j r ∷ es) s sound le att = elim (Bool-cases (completes i (completion j r) s)) [
    | inl h ↦
        let (sound', fewer, below) = Advances-completion law j r s h sound in
        rests es (handle i (completion j r) s) sound' (omega (arith, le, fewer)) att.1
    | inr h ↦
        let idle = handle-idle law j r s h in
        rw (handle_all, idle)
          (rests es s sound (omega (arith, due-quiet s (quiet h))) (rw idle at att.1))
  ]
    where
      quiet : completes i (completion j r) s ≡ false → is_quiet i s ≡ true
      quiet h = elim (Bool-cases (is_quiet i s)) [
        | inl q ↦ q
        | inr busy ↦ absurd (let done = att.0 busy in cc)
      ]

  -- Let a selector that shares serve n backends and no further client arrive. After 2n + 2 events
  -- for each client, in whatever order and with whatever results, as long as each event completes
  -- an operation while one is under way, nothing is under way, or the io_context was stopped:
  -- clients come to rest also where they exclude the same backends.
  pub come_to_rest :
      (es : List Event) (s : Clients i)
      → Sound law s
      → length s.clients * (2 * law.size s.selector + 2) ≤ length es
      → Attentive i es s
      → is_quiet i (handle_all i es s) ≡ true
  come_to_rest es s sound le att = rests es s sound (omega (arith, le, due-le s)) att

  Below-size : (t s : i.State) (n : ℕ) → Below law t s → law.size s ≤ n → law.size t ≤ n
  Below-size t s n (inl lt) le = omega arith
  Below-size t s n (inr (same, stand)) le = omega (arith, same)

  completed-due :
      (es : List Event) (s : Clients i) (n : ℕ)
      → Sound law s
      → (s.stopped ≡ false → law.size s.selector ≤ n)
      → completed i es s ≤ due law s + arrivals es * (2 * n + 2)
  unfolding completed
  completed-due [] s n sound le = omega arith
  completed-due (arrival client ∷ es) s n sound le =
      rw (suc-mul (arrivals es) (2 * n + 2)) (elim (Bool-cases s.stopped) [
        | inl off ↦
            let same = handle-stopped law (arrival client) s off in
            rw same (omega (arith, completed-due es s n sound le))
        | inr on ↦
            let (sound', going, below, more) = Sound-arrive law client s on sound in
            let t : Clients i = arrive i client s in
            let ih =
              completed-due es t n sound' λ _. Below-size t.selector s.selector n below (le on) in
            rw (arrive-on law client s on) (omega (arith, ih, more, le on))
      ])
  completed-due (completion j r ∷ es) s n sound le =
      elim (Bool-cases (completes i (completion j r) s)) [
        | inl h ↦
            let (on, _) = completes-client law j r s h in
            let (sound', fewer, below) = Advances-completion law j r s h sound in
            let t : Clients i = handle i (completion j r) s in
            let ih =
              completed-due es t n sound'
                λ going. Below-size t.selector s.selector n (below going) (le on) in
            rw h (omega (arith, ih, fewer))
        | inr h ↦ let ih = completed-due es s n sound le in rw h (rw (handle-idle law j r s h) ih)
      ]

  -- On one thread, with a selector of n backends that shares and serves at the start, whatever
  -- clients arrive and in whatever order their operations complete: the number of completions that
  -- are handled, of all clients together, is at most 2n + 2 times the number of clients, those that
  -- are there at the start and those that arrive.
  pub completed_bound :
      (es : List Event) (s : Clients i)
      → Sound law s
      → completed i es s ≤ (length s.clients + arrivals es) * (2 * law.size s.selector + 2)
  completed_bound es s sound =
      rw (add-mul (length s.clients) (arrivals es) (2 * law.size s.selector + 2))
        (omega (arith, completed-due es s (law.size s.selector) sound λ _. (omega arith), due-le s))
