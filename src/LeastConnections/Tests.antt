-- ===== src/LeastConnections/Tests.antt =====
-- LeastConnectionsSelector on concrete backends.
use lb.Common.{
  pos, In, List, ◌+◌, ℕ, suc, ◌<◌, ◌≤◌, String, ◌≡◌, refl, [], ◌∷◌, Option, some, none, ok, decimal,
  size_mod, Bool-cases, inl, inr, some_injective, arith, str_eq, if◌then◌else◌,
}
use lb.Common.Assoc.{find, assign}
use lb.Platform.Heap.{PairingHeap}
use lb.Pool
use lb.Pool.Insertion
use lb.Fixtures.{
  local, text_asio, host_ctre, doc_yaml, Doc, map, str, number, seq, cons, nil, entry, end,
}
use lb.Fixtures.Slots.{slots}
use lb.Backend.{Backend, of_url, make_endpoint, make_url_backend, endpoint_text, to_string}
use lb.LeastConnections.{
  CounterWrapper, connections_compare, LeastConnections, select_backend, initial, configure,
}
use lb.LeastConnections.Counts.{Linked, connections, counter_of, name_of}
use lb.LeastConnections.Selection.{select_least}
use lb.LeastConnections.Specification.{Call, select, increase, exclude, Reply, perform_all, Follows}
use lb.LeastConnections.Answers.{Ready}
use lb.LeastConnections.Refinement.{perform_all-Follows}
use lb.LeastConnections.Configuration.{Free, Distinct, configure-counts}

abbrev here : Backend
here = local 80

instance abbrev counts : PairingHeap CounterWrapper connections_compare
counts = slots counter_of

abbrev single : CounterWrapper → LeastConnections
single w = record { handle_pool = (to_string w.b, 0) ∷ []; backends = some w ∷ [] }

single-Linked : (w : CounterWrapper) → Linked (single w)
unfolding assign find
single-Linked w =
    Insertion.Linked-push counts name_of [] w [] refl (Pool.Linked-empty counts name_of)

abbrev with_count : ℕ → LeastConnections
with_count n = single (record { b = here; counter = n })

found : (n : ℕ) → find (to_string here) (with_count n).handle_pool ≡ some 0
unfolding find to_string endpoint_text decimal
found n = refl

connections-with_count : (n : ℕ) → connections (with_count n) (to_string here) ≡ some n
unfolding find to_string endpoint_text decimal
connections-with_count n = refl

-- No backend has more than the one that is there.
counted_one : (name : String) (n : ℕ) → connections (with_count 3) name ≡ some n → suc n < size_mod
unfolding find
counted_one name n h = elim (Bool-cases (str_eq (to_string here) name)) [
  | inl same ↦
      let three : ◌≡◌ {A = Option ℕ} (some 3) (some n) = rw same at h in
      let e : 3 ≡ n = some_injective three in omega arith
  | inr differ ↦ let gone : ◌≡◌ {A = Option ℕ} none (some n) = rw differ at h in cc
]

select_least_example :
    let s = with_count 3 in
    (t : LeastConnections) × (b : Backend) × (n : ℕ) × (select_backend s ≡ (t, ok b))
    × (connections s (to_string b) ≡ some n)
    × ((name : String) (i : ℕ) → connections s name ≡ some i → n ≤ i)
    × ((name : String)
        → connections t name
          ≡ (if str_eq (to_string b) name then some (suc n) else connections s name))
    × Linked t
    × Unit {0}
select_least_example =
    select_least (with_count 3) (to_string here) 3 (single-Linked _) tt counted_one
      (connections-with_count 3)

-- A client is sent to the backend, connects, and the backend is found closed by the next one.
abbrev one_day : List Call
one_day = select ∷ increase here ∷ select ∷ exclude here ∷ select ∷ []

room : (name : String) (n : ℕ) → connections (with_count 3) name ≡ some n → n + 5 < size_mod
unfolding find
room name n h = elim (Bool-cases (str_eq (to_string here) name)) [
  | inl same ↦
      let three : ◌≡◌ {A = Option ℕ} (some 3) (some n) = rw same at h in
      let e : 3 ≡ n = some_injective three in omega arith
  | inr differ ↦ let gone : ◌≡◌ {A = Option ℕ} none (some n) = rw differ at h in cc
]

with_count-Ready : Ready 5 (with_count 3)
with_count-Ready = record {
  linked = single-Linked _;
  ordered = tt;
  some_counted = (to_string here, 3, connections-with_count 3);
  fits = room;
}

perform_all-Follows_example :
    (t : LeastConnections) × (rs : List Reply) × (perform_all one_day (with_count 3) ≡ (t, ok rs))
    × Follows (connections (with_count 3)) one_day rs (connections t)
perform_all-Follows_example = perform_all-Follows one_day (with_count 3) with_count-Ready

abbrev url_endpoint : Doc
url_endpoint = map (entry "url" (str "a") end)

abbrev ip_endpoint : Doc
ip_endpoint = map (entry "ip" (str "127.0.0.1") (entry "port" (number (pos 80)) end))

abbrev two_hosts : Doc
two_hosts = map (entry "endpoints" (seq (cons url_endpoint (cons ip_endpoint nil))) end)

abbrev both : List Backend
both =
    of_url (record {
      whole_url = "a";
      protocol = "http";
      hostname = "a";
      port = "80";
      path = "";
      query = "";
      fragment = "";
    })
    ∷ here
    ∷ []

both-Distinct : Distinct both
unfolding to_string endpoint_text decimal
both-Distinct =
    ((λ c m. elim m [ inl e ↦ rw e refl | inr m' ↦ absurd m' ]), ((λ c m. absurd m), tt))

configure-counts_example :
    (t : LeastConnections) × (configure two_hosts initial ≡ (t, ok tt))
    × Linked t
    × counts.Ordered t.backends
    × ((c : Backend) → In c both → connections t (to_string c) ≡ some 0)
    × ((name : String) → Free name both → connections t name ≡ none)
unfolding make_url_backend make_endpoint
configure-counts_example =
    configure-counts two_hosts (url_endpoint ∷ ip_endpoint ∷ []) both (refl, refl, refl)
      (
        (refl, inl (refl, ("a", refl, refl))),
        ((refl, inr (refl, refl, refl, ("127.0.0.1", pos 80, refl, refl, refl))), tt),
      )
      both-Distinct
