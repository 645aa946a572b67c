-- ===== src/RoundRobin/Exclusion.antt =====
-- What ExcludeBackend leaves, and what SelectBackend can return after any calls.
use mathlib.Core.Logic.{◌⊎◌}
use lb.Common.{
  ℕ, suc, ◌<◌, false, ◌≡◌, refl, ◌↔◌, List, [], ◌∷◌, In, ok, throws, all_excluded, arith, length,
  size_mod, get_elem?, In-get_elem?, get_elem?_in_range, inl, inr, undefined, some,
}
use lb.Platform.{Asio}
use lb.Backend.{Backend, backend_eq}
use lb.Vectors.{remove_all}
use lb.Vectors.Removal.{In-remove_all, check_left_iff, length-remove_all-le, length-remove_all-lt}
use lb.Vectors.{next_counter}
use lb.Vectors.Counter.{next_counter-lt}
use lb.RoundRobin.{RoundRobin, select_backend, exclude_backend}
use lb.RoundRobin.Rotation.{select_at}

module _ ⦃asio : Asio⦄ where
  -- The counter can be incremented, and the size of the vector is a std::size_t.
  pub record IsValid (s : RoundRobin) : Type 0 where
    pub counter_fits : suc s.counter < size_mod
    pub size_fits : length s.backends < size_mod

  pub data Call : Type 0 where
    select : Call
    exclude : Backend → Call

  -- A call that throws leaves the object as the throw found it.
  unfoldable pub step : RoundRobin → Call → RoundRobin
  unfolding select_backend exclude_backend
  step s select = (select_backend s).0
  step s (exclude b) = (exclude_backend b s).0

  unfoldable pub run : RoundRobin → List Call → RoundRobin
  unfolding step
  run s [] = s
  run s (c ∷ cs) = run (step s c) cs

  -- No call of the list excludes a backend equal to `b`.
  abbrev pub Spared : Backend → List Call → Type 0
  Spared b [] = Unit {0}
  Spared b (select ∷ cs) = Spared b cs
  Spared b (exclude e ∷ cs) = (backend_eq b e ≡ false) × Spared b cs

  pub backends-select : (s : RoundRobin) → (select_backend s).0.backends ≡ s.backends
  unfolding select_backend
  backends-select s = ground arith

  step-IsValid : (s : RoundRobin) (c : Call) → IsValid s → IsValid (step s c)
  unfolding step select_backend exclude_backend
  step-IsValid s select v =
      grind (arith, next_counter-lt s.counter (length s.backends), v.counter_fits, v.size_fits)
  step-IsValid s (exclude b) v = record {
    counter_fits = v.counter_fits;
    size_fits = omega (arith, length-remove_all-le b s.backends, v.size_fits);
  }

  -- After any calls of the round-robin selector exactly the backends stand in the vector that stood
  -- there and equal none that was excluded.
  pub In-run :
      (cs : List Call) (s : RoundRobin) (b : Backend)
      → In b (run s cs).backends ↔ (In b s.backends × Spared b cs)
  unfolding run step exclude_backend
  In-run [] s b = (λ h. (h, tt), λ h. h.0)
  In-run (select ∷ cs) s b = rw (backends-select s) at (In-run cs (select_backend s).0 b)
  In-run (exclude e ∷ cs) s b =
      let rest = In-run cs (exclude_backend e s).0 b in
      let left = In-remove_all e b s.backends in
      (
        λ h. (let l = left.0 (rest.0 h).0 in (l.0, (l.1, (rest.0 h).1))),
        λ h. rest.1 (left.1 (h.0, h.1.0), h.1.1),
      )

  -- From a state whose incremented counter and whose size fit in std::size_t, the counter never
  -- wraps around and the size stays a std::size_t, whatever the calls.
  pub run-IsValid : (cs : List Call) (s : RoundRobin) → IsValid s → IsValid (run s cs)
  unfolding run
  run-IsValid [] s v = v
  run-IsValid (c ∷ cs) s v = run-IsValid cs (step s c) (step-IsValid s c v)

  -- With a backend left SelectBackend returns one of them, keeps them all, and puts the counter in
  -- range; with none left its behaviour is undefined.
  pub select_backend_lem :
      (s : RoundRobin)
      → ((s.backends ≡ []) × (select_backend s ≡ (s, undefined)))
        ⊎ ((b : Backend) × (c : ℕ) × (select_backend s ≡ (record s { counter = c }, ok b))
            × (c < length s.backends)
            × (get_elem? s.backends c ≡ some b))
  select_backend_lem s = split s.counter s.backends
    where
      split :
          (c : ℕ) (bs : List Backend)
          → let s' : RoundRobin = record { counter = c; backends = bs } in
            ((bs ≡ []) × (select_backend s' ≡ (s', undefined)))
            ⊎ ((b : Backend) × (c' : ℕ) × (select_backend s'
                  ≡ (record { counter = c'; backends = bs }, ok b))
                × (c' < length bs)
                × (get_elem? bs c' ≡ some b))
      split c [] = inl (refl, unfold select_backend in refl)
      split c (x ∷ bs) =
          let i = next_counter c (length (x ∷ bs)) in
          let i_in = next_counter-lt c (length (x ∷ bs)) (omega arith) in
          let (b, e) = get_elem?_in_range (x ∷ bs) i i_in in
          inr (b, i, select_at c i (x ∷ bs) b refl e, i_in, e)

  select-In : (s t : RoundRobin) (b : Backend) → select_backend s ≡ (t, ok b) → In b s.backends
  select-In s t b h = elim (select_backend_lem s) [
    | inl (none_left, e) ↦ cc
    | inr (a, c, e, c_in, at_c) ↦
        In-get_elem? s.backends c b (let same : a ≡ b = cc in rw same at at_c)
  ]

  -- After any selections and exclusions SelectBackend of the round-robin selector returns only a
  -- backend that was there at the start and equals none that was excluded since.
  pub select-Spared :
      (cs : List Call) (s t : RoundRobin) (b : Backend)
      → select_backend (run s cs) ≡ (t, ok b)
      → In b s.backends × Spared b cs
  select-Spared cs s t b h = (In-run cs s b).0 (select-In (run s cs) t b h)

  -- ExcludeBackend of the round-robin selector throws exactly when it leaves no backend, keeps
  -- exactly the backends that are not equal to the excluded one, and does not touch the counter.
  pub exclude_backend_lem :
      (b : Backend) (s : RoundRobin)
      → ((exclude_backend b s).1 ≡ throws all_excluded ↔ (exclude_backend b s).0.backends ≡ [])
        × ((y : Backend)
            → In y (exclude_backend b s).0.backends ↔ (In y s.backends × (backend_eq y b ≡ false)))
        × ((exclude_backend b s).0.counter ≡ s.counter)
  unfolding exclude_backend
  exclude_backend_lem b s =
      (check_left_iff (remove_all b s.backends), λ y. In-remove_all b y s.backends, refl)

  -- The exclusion of a backend that is there makes the vector shorter.
  pub exclude-shorter :
      (b : Backend) (s : RoundRobin)
      → In b s.backends
      → length (exclude_backend b s).0.backends < length s.backends
  unfolding exclude_backend
  exclude-shorter b s m = length-remove_all-lt b s.backends m
