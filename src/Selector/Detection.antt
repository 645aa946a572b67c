-- ===== src/Selector/Detection.antt =====
-- Which selector DetectSelector returns.
use lb.Common.{
  List, [], ◌∷◌, In, Option, none, if◌then◌else◌, str_eq, eq_iff, some_injective, drop, subst,
  String, ◌≡◌, sym, ap, ◌∙◌, some, Outcome, ok, throws, >>=-returned, ok_injective, Bool-cases, inl,
  inr, ◌==◌, Option-cases,
}
use lb.Platform.{Asio, Ctre, Yaml, StdHash, StdSort, LexicalCast, Double}
use lb.Platform.Heap.{PairingHeap}
use lb.Platform.Router.{Router}
use lb.Backend.{Backend}
use lb.ConsistentHash.{backend_traits}
use lb.LeastConnections.{CounterWrapper, connections_compare}
use lb.LeastResponseTime.{AverageTimeWrapper, ema_compare}
use lb.Selector.{
  SelectorType, round_robin, weighted_round_robin, ip_hash, consistent_hash, least_connections,
  least_response_time, ISelector, Selector, selector_switch, configured, make_consistent_hash,
  make_selector, find_type, detect_selector,
}

-- The values of `algorithm` that src/README.md lists, each with the class that has its name.
abbrev pub algorithms : List (String × SelectorType)
algorithms =
    ("round_robin", round_robin)
    ∷ ("weighted_round_robin", weighted_round_robin)
    ∷ ("consistent_hash", consistent_hash)
    ∷ ("ip_hash", ip_hash)
    ∷ ("least_connections", least_connections)
    ∷ ("least_response_time", least_response_time)
    ∷ []

-- A test of a name before the others.
found_row :
    (name key : String) (t u : SelectorType) (other : Option SelectorType)
    (rows : List (String × SelectorType))
    → (other ≡ some t → In (name, t) rows)
    → (if str_eq name key then some u else other) ≡ some t
    → In (name, t) ((key, u) ∷ rows)
found_row name key t u other rows later h = elim (Bool-cases (str_eq name key)) [
  | inl same ↦
      let here : some u ≡ some t = rw same at h in
      inl (pair ((eq_iff name key).0 same) (sym (some_injective here)))
  | inr differ ↦ inr (later (rw differ at h))
]
  where
    pair :
        {a b : String} {x y : SelectorType}
        → a ≡ b
        → x ≡ y
        → ◌≡◌ {A = String × SelectorType} (a, x) (b, y)
    pair e f = λ i. (e i, f i)

-- What the table has for a name is what the list has.
selector_switch-In :
    (name : String) (t : SelectorType) → selector_switch name ≡ some t → In (name, t) algorithms
unfolding selector_switch
selector_switch-In name t = found_row name "round_robin" t _ _ (drop 1 algorithms) (
    found_row name "weighted_round_robin" t _ _ (drop 2 algorithms) (
      found_row name "consistent_hash" t _ _ (drop 3 algorithms) (
        found_row name "ip_hash" t _ _ (drop 4 algorithms) (
          found_row name "least_connections" t _ _ (drop 5 algorithms)
            (found_row name "least_response_time" t _ none [] (λ h. cc))))))

configured-kind :
    ⦃asio : Asio⦄ (i : ISelector) (r : i.State × Outcome (Unit {0})) (made : Selector)
    → configured i r ≡ ok made
    → made.0.kind ≡ i.kind
configured-kind i (s, ok u) made h = sym (ap (λ (x : Selector). x.0.kind) (ok_injective h))
configured-kind i (s, throws e) made h = cc
configured-kind i (s, Outcome.undefined) made h = cc

find_type-found :
    (name : String) (t : SelectorType) → find_type name ≡ ok t → selector_switch name ≡ some t
unfolding find_type
find_type-found name t h = elim (Option-cases (selector_switch name)) [
  | inl unknown ↦ let thrown : throws _ ≡ ok t = rw (unknown, find_type) at h in cc
  | inr (u, known) ↦
      let same : ok u ≡ ok t = rw (known, find_type) at h in known ∙ ap some (ok_injective same)
]

module _ ⦃asio : Asio⦄ ⦃hash : StdHash⦄ ⦃ctre : Ctre⦄ ⦃lexical : LexicalCast⦄ ⦃sort : StdSort⦄
    ⦃double : Double⦄ ⦃yaml : Yaml⦄ ⦃router : Router Backend backend_traits⦄
    ⦃counts : PairingHeap CounterWrapper connections_compare⦄
    ⦃times : PairingHeap AverageTimeWrapper ema_compare⦄ where
  make_consistent_hash-kind :
      (node : yaml.Node) (made : Selector)
      → make_consistent_hash node ≡ ok made
      → made.0.kind ≡ consistent_hash
  unfolding make_consistent_hash
  make_consistent_hash-kind node made h =
      let (replicas, read, rest) = >>=-returned (yaml.as_size (yaml.child node "replicas")) _ h in
      elim (Bool-cases (replicas == 0)) [
        | inl none_asked ↦ let thrown : throws _ ≡ ok made = rw none_asked at rest in cc
        | inr some_asked ↦ configured-kind _ _ made (rw some_asked at rest)
      ]

  make_selector-kind :
      (t : SelectorType) (node : yaml.Node) (made : Selector)
      → make_selector t node ≡ ok made
      → made.0.kind ≡ t
  unfolding make_selector
  make_selector-kind round_robin node made h = configured-kind _ _ made h
  make_selector-kind weighted_round_robin node made h = configured-kind _ _ made h
  make_selector-kind ip_hash node made h = configured-kind _ _ made h
  make_selector-kind consistent_hash node made h = make_consistent_hash-kind node made h
  make_selector-kind least_connections node made h = configured-kind _ _ made h
  make_selector-kind least_response_time node made h = configured-kind _ _ made h

  -- The selector that DetectSelector returns is of the class that has the name that the
  -- configuration gives as its algorithm, one of the six of the list.
  pub detect_selector-kind :
      (node : yaml.Node) (made : Selector)
      → detect_selector node ≡ ok made
      → (name : String) × (yaml.as_string
            (yaml.child (yaml.child node "load_balancing") "algorithm")
          ≡ ok name)
        × In (name, made.0.kind) algorithms
  unfolding detect_selector
  detect_selector-kind node made h =
      let balancing : yaml.Node = yaml.child node "load_balancing" in
      elim (Bool-cases (yaml.is_defined balancing)) [
        | inr missing ↦ let thrown : throws _ ≡ ok made = rw missing at h in cc
        | inl there ↦ elim (Bool-cases (yaml.is_scalar balancing)) [
          | inl scalar ↦ let thrown : throws _ ≡ ok made = rw (there, scalar) at h in cc
          | inr no_scalar ↦ elim (Bool-cases (yaml.is_defined (yaml.child balancing "algorithm"))) [
            | inr unnamed ↦
                let thrown : throws _ ≡ ok made = rw (there, no_scalar, unnamed) at h in cc
            | inl named ↦
                let (name, read, rest) =
                  >>=-returned (yaml.as_string (yaml.child balancing "algorithm")) _
                    (rw (there, no_scalar, named) at h) in
                let (t, known, built) = >>=-returned (find_type name) _ rest in
                (
                  name,
                  read,
                  subst (λ (k : SelectorType). In (name, k) algorithms)
                      (sym (make_selector-kind t balancing made built))
                      (selector_switch-In name t (find_type-found name t known)),
                )
          ]
        ]
      ]
