-- ===== src/Weighted/Schedule.antt =====
-- The order in which SelectBackend of the weighted selector hands the backends out.
use mathlib.Core.List.{append_assoc, append-nil}
use native.Mathlib.Nat.{mod-eq_of_lt, add-zero}
use lb.Common.{
  ℕ, zero, suc, ◌+◌, ◌-◌, ◌%◌, ◌<◌, ◌≤◌, max, true, false, ◌≡◌, sym, ap, subst, ◌∙◌, List, [], ◌∷◌,
  ◌++◌, ok, arith, length, length-append, get_elem?-middle, set-middle, replicate, size_mod, ltb,
  repeat, repeat-zero, repeat-suc, repeat-add,
}
use lb.Platform.{Asio}
use lb.Backend.{Backend}
use lb.Vectors.{next_counter}
use lb.Vectors.Counter.{next_counter_within, next_counter_end}
use lb.Weighted.{WeightWrapper, Weighted, advance_entry, advance_counter, select_backend}

-- The sum in AdvanceCounter does not wrap around.
next_current : (c w : ℕ) → suc c ≤ max 1 w → w < size_mod → (c + 1) % size_mod ≡ suc c
next_current c w h fits = mod-eq_of_lt (omega arith) ∙ omega arith

pub stays : (c w : ℕ) → suc c < max 1 w → w < size_mod → ltb ((c + 1) % size_mod) w ≡ true
stays c w h fits = rw (next_current c w (omega arith) fits) (ground arith)

leaves : (c w : ℕ) → suc c ≡ max 1 w → w < size_mod → ltb ((c + 1) % size_mod) w ≡ false
leaves c w h fits = rw (next_current c w (omega arith) fits) (ground arith)

module _ ⦃asio : Asio⦄ where
  -- How often an entry is served in a round: its weight, and once for the weight 0.
  abbrev pub quota : WeightWrapper → ℕ
  quota e = max 1 e.weight

  abbrev pub quotas : List WeightWrapper → ℕ
  quotas [] = 0
  quotas (e ∷ es) = quota e + quotas es

  -- A round: each backend as often as its quota, in the order of the vector.
  abbrev pub round : List WeightWrapper → List Backend
  round [] = []
  round (e ∷ es) = replicate (quota e) e.backend ++ round es

  -- Every entry is at the beginning of its turn.
  abbrev pub AllIdle : List WeightWrapper → Type 0
  AllIdle [] = Unit {0}
  AllIdle (e ∷ es) = (e.current ≡ 0) × AllIdle es

  -- Weights are of type std::size_t.
  abbrev pub WeightsFit : List WeightWrapper → Type 0
  WeightsFit [] = Unit {0}
  WeightsFit (e ∷ es) = (e.weight < size_mod) × WeightsFit es

  abbrev with_current : WeightWrapper → ℕ → WeightWrapper
  with_current e k = record e { current = k }

  -- The selector that serves `e` after `ps`, with `es` behind it.
  abbrev serving : List WeightWrapper → WeightWrapper → List WeightWrapper → Weighted
  serving ps e es = record { backends = ps ++ e ∷ es; counter = length ps }

  select_serving :
      (ps es : List WeightWrapper) (e : WeightWrapper)
      → select_backend (serving ps e es)
        ≡ (advance_entry e (length (ps ++ e ∷ es)) (serving ps e es), ok e.backend)
  unfolding select_backend
  select_serving ps es e =
      rw (get_elem?-middle ps e es, select_backend) (rw (get_elem?-middle ps e es, advance_counter))

  -- Before its quota is reached an entry stays, and counts the selection.
  advance_stays :
      (ps es : List WeightWrapper) (e : WeightWrapper)
      → suc e.current < quota e
      → e.weight < size_mod
      → advance_entry e (length (ps ++ e ∷ es)) (serving ps e es)
        ≡ serving ps (with_current e (suc e.current)) es
  unfolding advance_entry
  advance_stays ps es e h fits =
      rw (stays e.current e.weight h fits, advance_entry)
        (rw (
          next_current e.current e.weight (omega arith) fits,
          set-middle ps e (with_current e (suc e.current)) es,
        ))

  abbrev after_turn : List WeightWrapper → WeightWrapper → List WeightWrapper → Weighted
  after_turn ps e es = record {
    backends = ps ++ with_current e 0 ∷ es;
    counter = next_counter (length ps) (length ps + suc (length es));
  }

  -- With its quota reached it begins anew, and the counter goes on.
  advance_leaves :
      (ps es : List WeightWrapper) (e : WeightWrapper)
      → suc e.current ≡ quota e
      → e.weight < size_mod
      → advance_entry e (length (ps ++ e ∷ es)) (serving ps e es) ≡ after_turn ps e es
  unfolding advance_entry
  advance_leaves ps es e h fits =
      rw (leaves e.current e.weight h fits, advance_entry)
        (rw (set-middle ps e (with_current e 0) es, length-append ps (e ∷ es)))

  -- The rest of the turn of an entry.
  turn :
      (j c : ℕ) (ps es : List WeightWrapper) (e : WeightWrapper)
      → c + suc j ≡ quota e
      → e.weight < size_mod
      → repeat (suc j) select_backend (serving ps (with_current e c) es)
        ≡ (after_turn ps e es, ok (replicate (suc j) e.backend))
  turn zero c ps es e h fits =
      repeat-suc 0 select_backend (serving ps (with_current e c) es)
        (select_serving ps es (with_current e c)
          ∙ ap (λ (s : Weighted). (s, ok e.backend))
              (advance_leaves ps es (with_current e c) (omega arith) fits))
        (repeat-zero select_backend _)
  turn (suc j) c ps es e h fits =
      repeat-suc (suc j) select_backend (serving ps (with_current e c) es)
        (select_serving ps es (with_current e c)
          ∙ ap (λ (s : Weighted). (s, ok e.backend))
              (advance_stays ps es (with_current e c) (omega arith) fits))
        (turn j (suc c) ps es e (omega arith) fits)

  whole_turn :
      (ps es : List WeightWrapper) (e : WeightWrapper)
      → e.current ≡ 0
      → e.weight < size_mod
      → repeat (quota e) select_backend (serving ps e es) ≡ (
        record {
          backends = ps ++ e ∷ es;
          counter = next_counter (length ps) (length ps + suc (length es));
        },
        ok (replicate (quota e) e.backend),
      )
  whole_turn ps es e idle fits =
      let n : quota e ≡ suc (quota e - 1) = omega arith in
      let same : with_current e 0 ≡ e = ap (with_current e) (sym idle) in
      rw n (rw same at (turn (quota e - 1) 0 ps es e (omega arith) fits))

  -- The entry behind is served from the next index.
  move_on :
      (ps es : List WeightWrapper) (e f : WeightWrapper)
      → length ps + suc (suc (length es)) < size_mod
      → record {
        backends = ps ++ e ∷ f ∷ es;
        counter = next_counter (length ps) (length ps + suc (length (f ∷ es)));
      }
        ≡ serving (ps ++ e ∷ []) f es
  move_on ps es e f fits =
      rw
        (
          append_assoc,
          length-append ps (e ∷ []),
          next_counter_within (length ps) (length ps + suc (suc (length es))) (omega arith) fits,
        )
        (ap (λ (c : ℕ). record { backends = ps ++ e ∷ f ∷ es; counter = c }) (omega arith))

  -- The rest of a round, from the entry `e` behind the entries `ps`.
  rest_of_round :
      (ps es : List WeightWrapper) (e : WeightWrapper)
      → AllIdle (e ∷ es)
      → WeightsFit (e ∷ es)
      → length ps + suc (length es) < size_mod
      → repeat (quotas (e ∷ es)) select_backend (serving ps e es)
        ≡ (record { backends = ps ++ e ∷ es; counter = 0 }, ok (round (e ∷ es)))
  rest_of_round ps [] e idle fit fits =
      rw (add-zero, append-nil)
        (whole_turn ps [] e idle.0 fit.0
          ∙ rw (next_counter_end (length ps) (length ps + 1) (omega arith) fits))
  rest_of_round ps (f ∷ es) e idle fit fits =
      let first =
        whole_turn ps (f ∷ es) e idle.0 fit.0
        ∙ ap (λ (s : Weighted). (s, ok (replicate (quota e) e.backend))) (move_on ps es e f fits) in
      let rest =
        rest_of_round (ps ++ e ∷ []) es f idle.1 fit.1
          (rw (length-append ps (e ∷ [])) (omega arith)) in
      rw append_assoc at
        (repeat-add (quota e) (quotas (f ∷ es)) select_backend (serving ps e (f ∷ es)) first rest)

  -- From the start of a round, with weights and size that fit in std::size_t, as many calls of
  -- SelectBackend as the quotas add up to hand out each backend as often in a row as its weight
  -- (once for the weight 0), in the order of the vector, and lead back to the same state.
  pub round_lem :
      (s : Weighted)
      → s.counter ≡ 0
      → AllIdle s.backends
      → WeightsFit s.backends
      → length s.backends < size_mod
      → repeat (quotas s.backends) select_backend s ≡ (s, ok (round s.backends))
  round_lem s at_start idle fit fits =
      subst
        (λ c.
          let t : Weighted = record { backends = s.backends; counter = c } in
          repeat (quotas s.backends) select_backend t ≡ (t, ok (round s.backends)))
        (sym at_start) (from s.backends idle fit fits)
    where
      from :
          (es : List WeightWrapper)
          → AllIdle es
          → WeightsFit es
          → length es < size_mod
          → repeat (quotas es) select_backend (record { backends = es; counter = 0 })
            ≡ (record { backends = es; counter = 0 }, ok (round es))
      from [] i f l = repeat-zero select_backend _
      from (e ∷ es) i f l = rest_of_round [] es e i f (omega arith)
