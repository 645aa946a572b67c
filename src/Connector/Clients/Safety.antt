-- ===== src/Connector/Clients/Safety.antt =====
-- What a handler of src/lb/tcp/connector.cpp leaves of the selector and of all clients.
use lb.Common.{
  ℕ, ◌+◌, ◌*◌, ◌<◌, ◌≤◌, ◌≡◌, refl, ◌∙◌, inl, inr, Bool, true, false, not, ◌&&◌, List, [], ◌∷◌,
  ◌++◌, Option, some, Exception, arith, Bool-cases, Option-cases, get_elem?, set,
}
use lb.Platform.{Asio}
use lb.Backend.{Endpoint}
use lb.Session.{ErrorCode}
use lb.Selector.{ISelector}
use lb.Connector.{Progress, failed, complete, make_and_run_session}
use lb.Connector.Clients.{
  Clients, Event, arrival, completion, is_waiting, is_failed, arrive, resume, finish, handle,
  handle_all, completes,
}
use lb.Connector.Clients.Shared.{Shares, Below, Goes, left}
use lb.Connector.Clients.Handlers.{Goes-select, Ends, Ends-complete, left-waiting}
use lb.Connector.Clients.Totals.{
  AllSane, AllSane-append, AllSane-set, Sound, due, total-append, total-at, total-Below, total-set,
}

when_true : {A : Type 0} (t : Bool) (a b : A) → t ≡ true → elim t [ true ↦ a | false ↦ b ] ≡ a
when_true true a b e = refl
when_true false a b e = cc

when_false : {A : Type 0} (t : Bool) (a b : A) → t ≡ false → elim t [ true ↦ a | false ↦ b ] ≡ b
when_false false a b e = refl
when_false true a b e = cc

module _ ⦃asio : Asio⦄ {i : ISelector} (law : Shares i) where
  -- The client that an event completes an operation of.
  pub completes-client :
      (j : ℕ) (r : Option ErrorCode) (s : Clients i)
      → completes i (completion j r) s ≡ true
      → (s.stopped ≡ false)
        × ((c : Endpoint × Progress) × (get_elem? s.clients j ≡ some c) × (is_waiting c.1 ≡ true))
  completes-client j r s h = elim (Option-cases (get_elem? s.clients j)) [
    | inl e ↦ absurd (let none_waits : (not s.stopped && false) ≡ true = rw e at h in ground arith)
    | inr (c, e) ↦
        let both : (not s.stopped && is_waiting c.1) ≡ true = rw e at h in
        (ground arith, (c, e, ground arith))
  ]

  abbrev after : ℕ → Endpoint → i.State × Progress → Clients i → Clients i
  after j client n s = record {
    selector = n.0;
    stopped = is_failed n.1;
    clients = set s.clients j (client, n.1);
  }

  resumed :
      (j : ℕ) (r : Option ErrorCode) (c : Endpoint × Progress) (s : Clients i)
      → s.stopped ≡ false
      → get_elem? s.clients j ≡ some c
      → is_waiting c.1 ≡ true
      → handle i (completion j r) s ≡ after j c.0 (complete i c.0 r s.selector c.1) s
  unfolding handle
  resumed j r c s on e w = rw (on, handle) (rw (e, finish) (rw (w, resume)))

  Sound-stopped :
      (cs : List (Endpoint × Progress)) (t : i.State) (p : Progress) (e : Exception)
      → p ≡ failed e
      → AllSane law cs
      → Sound law (record { selector = t; stopped = is_failed p; clients = cs })
  Sound-stopped cs t p e h all =
      rw h (record { serves = λ on. (let no : ◌≡◌ true false = on in cc); sane = all })

  Sound-going :
      (cs : List (Endpoint × Progress)) (s : i.State) (n : ℕ) (r : i.State × Progress)
      → Goes law s n r
      → AllSane law cs
      → Sound law (record { selector = r.0; stopped = is_failed r.1; clients = cs })
  Sound-going cs s n r g all = record { serves = λ on. g.serves; sane = all }

  -- A client that arrives may cause as many completions as there are attempts, and one for each
  -- backend that others exclude in the meantime.
  pub Sound-arrive :
      (client : Endpoint) (s : Clients i)
      → s.stopped ≡ false
      → Sound law s
      → let t = arrive i client s in
        Sound law t
        × (t.stopped ≡ false)
        × Below law t.selector s.selector
        × (due law t ≤ due law s + (2 * law.size s.selector + 2))
  unfolding arrive
  Sound-arrive client s on sound =
      let serves = sound.serves on in
      let g =
        Goes-select law client s.selector s.selector (2 * law.size s.selector + 1) serves
          (inr (refl, λ c. refl)) (omega arith) in
      let r = make_and_run_session i client s.selector in
      (
        Sound-going (s.clients ++ (client, r.1) ∷ []) s.selector _ r g
            (AllSane-append law s.clients ((client, r.1) ∷ []) sound.sane (g.sane, tt)),
        g.calm,
        g.below,
        rw (g.calm, on, total-append law r.0 s.clients ((client, r.1) ∷ []))
            (omega (arith, g.fewer, total-Below law s.clients r.0 s.selector g.below)),
      )

  -- How a handler ends that has completed an operation.
  abbrev pub Advances : Clients i → Clients i → Type 0
  Advances s t =
      Sound law t × (due law t < due law s) × (t.stopped ≡ false → Below law t.selector s.selector)

  Advances-after :
      (j : ℕ) (c : Endpoint × Progress) (n : i.State × Progress) (s : Clients i)
      → s.stopped ≡ false
      → Sound law s
      → get_elem? s.clients j ≡ some c
      → is_waiting c.1 ≡ true
      → Ends law s.selector (left law s.selector c.1) n
      → Advances s (after j c.0 n s)
  Advances-after j c n s on sound e w (inl (x, thrown)) =
      let some_left = left-waiting law s.selector c.1 (sound.serves on) w in
      (
        Sound-stopped (set s.clients j (c.0, n.1)) n.0 n.1 x thrown
            (AllSane-set law s.clients j (c.0, n.1) sound.sane (rw thrown tt)),
        rw (thrown, on) (omega (arith, some_left, total-at law s.clients j c s.selector e)),
        rw thrown λ going. (let no : ◌≡◌ true false = going in cc),
      )
  Advances-after j c n s on sound e w (inr g) = (
    Sound-going (set s.clients j (c.0, n.1)) s.selector _ n g
        (AllSane-set law s.clients j (c.0, n.1) sound.sane g.sane),
    rw (g.calm, on) (total-set law s.clients j c (c.0, n.1) n.0 s.selector g.below e g.fewer),
    λ going. g.below,
  )

  -- A completion keeps the clients sound and takes from what is due.
  pub Advances-completion :
      (j : ℕ) (r : Option ErrorCode) (s : Clients i)
      → completes i (completion j r) s ≡ true
      → Sound law s
      → Advances s (handle i (completion j r) s)
  Advances-completion j r s h sound =
      let (on, (c, e, w)) = completes-client j r s h in
      rw (resumed j r c s on e w) (
        Advances-after j c (complete i c.0 r s.selector c.1) s on sound e w
          (Ends-complete law c.0 r s.selector c.1 (sound.serves on) w))

  finish-idle :
      (j : ℕ) (r : Option ErrorCode) (c : Endpoint × Progress) (s : Clients i)
      → get_elem? s.clients j ≡ some c
      → is_waiting c.1 ≡ false
      → finish i j r s ≡ s
  unfolding finish
  finish-idle j r c s e w = rw (e, finish) (rw (w, resume))

  -- An event that completes nothing, and is no arrival, changes nothing.
  pub handle-idle :
      (j : ℕ) (r : Option ErrorCode) (s : Clients i)
      → completes i (completion j r) s ≡ false
      → handle i (completion j r) s ≡ s
  unfolding handle
  handle-idle j r s h = elim (Bool-cases s.stopped) [
    | inl off ↦ when_true s.stopped s (finish i j r s) off
    | inr on ↦
        when_false s.stopped s (finish i j r s) on ∙ (elim (Option-cases (get_elem? s.clients j)) [
          | inl e ↦ rw (e, finish)
          | inr (c, e) ↦ finish-idle j r c s e (rw (on, e) at h)
        ])
  ]

  pub handle-stopped : (e : Event) (s : Clients i) → s.stopped ≡ true → handle i e s ≡ s
  unfolding handle
  handle-stopped (arrival client) s off = when_true s.stopped s (arrive i client s) off
  handle-stopped (completion j r) s off = when_true s.stopped s (finish i j r s) off

  pub arrive-on :
      (client : Endpoint) (s : Clients i)
      → s.stopped ≡ false
      → handle i (arrival client) s ≡ arrive i client s
  unfolding handle
  arrive-on client s on = when_false s.stopped s (arrive i client s) on

  pub Sound-handle : (e : Event) (s : Clients i) → Sound law s → Sound law (handle i e s)
  unfolding handle
  Sound-handle (arrival client) s sound = elim (Bool-cases s.stopped) [
    | inl off ↦ rw (off, handle) sound
    | inr on ↦ rw (arrive-on client s on) (Sound-arrive client s on sound).0
  ]
  Sound-handle (completion j r) s sound = elim (Bool-cases (completes i (completion j r) s)) [
    | inl h ↦ (Advances-completion j r s h sound).0
    | inr h ↦ rw (handle-idle j r s h) sound
  ]

  -- Whatever arrives and completes, on one thread and with a selector that shares and serves at the
  -- start, no client ever comes to a call without defined behaviour, and the selector serves until
  -- the io_context is stopped.
  pub handle_all-Sound :
      (es : List Event) (s : Clients i) → Sound law s → Sound law (handle_all i es s)
  unfolding handle_all
  handle_all-Sound [] s sound = sound
  handle_all-Sound (e ∷ es) s sound = handle_all-Sound es (handle i e s) (Sound-handle e s sound)
