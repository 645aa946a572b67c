-- ===== src/LeastConnections/Configuration.antt =====
-- What Configure of LeastConnectionsSelector of src/lb/tcp/selectors.cpp makes of endpoints that all
-- have texts of their own.
use mathlib.Core.List.{foldl}
use lb.Common.{
  String, true, false, ◌≡◌, refl, sym, ap, ◌∙◌, List, [], ◌∷◌, In, none, some, ok, Outcome, str_eq,
  eq_iff, if◌then◌else◌, Bool-cases, inl, inr,
}
use lb.Common.Assoc
use lb.Common.Assoc.{find-assign}
use lb.Platform.{Asio, Ctre, Yaml}
use lb.Platform.Heap.{PairingHeap}
use lb.Backend.{Backend, to_string}
use lb.Endpoints.{push_endpoints-read_all}
use lb.Endpoints.Reading.{HasEndpoints, AllStandFor, endpoint_nodes-read, read_all-read}
use lb.LeastConnections.{
  CounterWrapper, connections_compare, LeastConnections, initial, insert_backend, configure,
}
use lb.LeastConnections.Counts.{Linked, connections}
use lb.LeastConnections.Membership.{initial-Linked, insert_lem}

other_way : (a b : String) → str_eq a b ≡ false → str_eq b a ≡ false
other_way a b h = elim (Bool-cases (str_eq b a)) [
  | inl same ↦
      let test = (eq_iff a b).1 (sym ((eq_iff b a).0 same)) in
      absurd (let no : true ≡ false = sym test ∙ h in cc)
  | inr differ ↦ differ
]

module _ ⦃asio : Asio⦄ where
  -- No backend of the list has the text.
  abbrev pub Free : String → List Backend → Type 0
  Free name bs = (c : Backend) → In c bs → str_eq (to_string c) name ≡ false

  -- No two backends of the list have one text.
  abbrev pub Distinct : List Backend → Type 0
  Distinct [] = Unit {0}
  Distinct (b ∷ bs) = Free (to_string b) bs × Distinct bs

module _ ⦃asio : Asio⦄ ⦃heap : PairingHeap CounterWrapper connections_compare⦄ where
  abbrev insert_all : List Backend → LeastConnections → LeastConnections
  insert_all bs s = foldl (λ s b. insert_backend b s) s bs

  find-insert :
      (b c : Backend) (s : LeastConnections)
      → str_eq (to_string b) (to_string c) ≡ false
      → Assoc.find (to_string c) s.handle_pool ≡ none
      → Assoc.find (to_string c) (insert_backend b s).handle_pool ≡ none
  unfolding insert_backend
  find-insert b c s differ fresh =
      find-assign (to_string b) (to_string c) _ s.handle_pool ∙ rw (differ, fresh)

  -- What the insertions of backends leave.
  record Inserted (bs : List Backend) (s t : LeastConnections) : Type 0 where
    linked : Linked t
    ordered : heap.Ordered t.backends
    counted : (c : Backend) → In c bs → connections t (to_string c) ≡ some 0
    others : (name : String) → Free name bs → connections t name ≡ connections s name

  insert_all-Inserted :
      (bs : List Backend) (s : LeastConnections)
      → Linked s
      → heap.Ordered s.backends
      → Distinct bs
      → ((c : Backend) → In c bs → Assoc.find (to_string c) s.handle_pool ≡ none)
      → Inserted bs s (insert_all bs s)
  insert_all-Inserted [] s l o distinct fresh = record {
    linked = l;
    ordered = o;
    counted = λ c m. absurd m;
    others = λ name free. refl;
  }
  insert_all-Inserted (b ∷ bs) s l o distinct fresh =
      let u : LeastConnections = insert_backend b s in
      let (l', o', counts) = insert_lem b s l o (fresh b (inl refl)) in
      let later = insert_all-Inserted bs u l' o' distinct.1 λ c m.
        find-insert b c s (other_way (to_string c) (to_string b) (distinct.0 c m))
          (fresh c (inr m)) in
      record {
        linked = later.linked;
        ordered = later.ordered;
        counted = λ c m. elim m [
          | inl e ↦
              let own : connections (insert_all bs u) (to_string b) ≡ some 0 =
                later.others (to_string b) distinct.0
                ∙ counts (to_string b)
                ∙ ap (λ t. if t then some 0 else connections s (to_string b))
                    ((eq_iff (to_string b) (to_string b)).1 refl) in
              let there : connections (insert_all bs u) (to_string c) ≡ some 0 = rw e own in there
          | inr m' ↦ later.counted c m'
        ];
        others = λ name free.
            later.others name (λ c m. free c (inr m)) ∙ counts name ∙ rw (free b (inl refl));
      }

module _ ⦃asio : Asio⦄ ⦃heap : PairingHeap CounterWrapper connections_compare⦄ ⦃ctre : Ctre⦄
    ⦃yaml : Yaml⦄ where
  -- Where the endpoints are a sequence that stands for backends, by a url or by an ip and a port,
  -- of which no two have one text, Configure of a new least-connections selector returns, counts 0
  -- connections for each of them, counts nothing else, pool and heap are linked, and the heap is in
  -- order.
  pub configure-counts :
      (node : yaml.Node) (eps : List yaml.Node) (bs : List Backend)
      → HasEndpoints node eps
      → AllStandFor eps bs
      → Distinct bs
      → (t : LeastConnections) × (configure node initial ≡ (t, ok tt))
        × Linked t
        × heap.Ordered t.backends
        × ((c : Backend) → In c bs → connections t (to_string c) ≡ some 0)
        × ((name : String) → Free name bs → connections t name ≡ none)
  unfolding configure initial Assoc.find
  configure-counts node eps bs listed stand distinct =
      let all =
        insert_all-Inserted bs initial initial-Linked heap.Ordered_empty distinct (λ c m. refl) in
      let pushed =
        push_endpoints-read_all insert_backend eps initial
        ∙ ap
            (λ (r : List Backend × Outcome (Unit {0})).
              (foldl (λ s b. insert_backend b s) initial r.0, r.1))
            (read_all-read eps bs stand) in
      (
        insert_all bs initial,
        rw (endpoint_nodes-read node eps listed, configure) pushed,
        all.linked,
        all.ordered,
        all.counted,
        λ name free. all.others name free ∙ refl,
      )
