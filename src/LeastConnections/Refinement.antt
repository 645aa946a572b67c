-- ===== src/LeastConnections/Refinement.antt =====
-- The calls of LeastConnectionsSelector of src/lb/tcp/selectors.cpp against its specification.
use mathlib.Core.Option
use lb.Common.{
  ℕ, suc, ◌+◌, ◌<◌, String, true, ◌≡◌, refl, sym, ap, ◌∙◌, ◌⊎◌, inl, inr, List, [], ◌∷◌, none, some,
  Outcome, ok, throws, all_excluded, arith, length, str_eq, if◌then◌else◌, Bool-cases, Option-cases,
  size_mod,
}
use lb.Common.Assoc
use lb.Platform.{Asio}
use lb.Platform.Heap.{PairingHeap}
use lb.Pool
use lb.Pool.Erasure
use lb.Backend.{Backend, to_string}
use lb.LeastConnections.{
  CounterWrapper, connections_compare, LeastConnections, exclude_backend, drop_entry,
}
use lb.LeastConnections.Counts.{name_of, counter_of, Linked, connections}
use lb.LeastConnections.Membership.{exclude_found, exclude_missing, exclude_lem}
use lb.LeastConnections.Specification.{
  Counts, Call, select, increase, exclude, Reply, chosen, done, all_gone, is_last, Step, excludes,
  excludes_last, Follows, finished, ends, goes, answered, perform, perform_all,
}
use lb.LeastConnections.Answers.{Ready, Implements, select-Implements, increase-Implements}

module _ ⦃asio : Asio⦄ ⦃heap : PairingHeap CounterWrapper connections_compare⦄ where
  -- An exclusion throws and leaves nothing counted, or returns and leaves something.
  exclude_end :
      (b : Backend) (s : LeastConnections) (key : String) (m : ℕ)
      → Linked s
      → connections s key ≡ some m
      → let r = exclude_backend b s in
        ((r.1 ≡ throws all_excluded) × ((name : String) → connections r.0 name ≡ none))
        ⊎ ((r.1 ≡ ok tt) × ((name : String) × (i : ℕ) × (connections r.0 name ≡ some i)))
  unfolding drop_entry
  exclude_end b s key m l some_counted =
      elim (Option-cases (Assoc.find (to_string b) s.handle_pool)) [
        | inl e ↦ rw (exclude_missing b s e) (inr (refl, (key, m, some_counted)))
        | inr (k, e) ↦
            let left : heap.Heap = heap.erase k s.backends in
            let pool = Assoc.erase (to_string b) s.handle_pool in
            let linked =
              Erasure.Linked-erase heap name_of s.handle_pool (to_string b) k s.backends e l in
            rw (exclude_found b k s e) (elim (Bool-cases (heap.is_empty left)) [
              | inl empty ↦
                  let all = (Pool.empty_iff heap name_of pool left linked).0 empty in
                  inl (rw empty, λ name. ap (Option.map counter_of) (all name))
              | inr some_left ↦
                  let (j, w, at_j) = heap.is_empty_some left some_left in
                  let entry =
                    Pool.entry-found heap name_of pool left (to_string w.b) j w
                      (linked.pooled j w at_j) at_j in
                  inr (rw some_left, (to_string w.b, w.counter, ap (Option.map counter_of) entry))
            ])
      ]

  answered-throws :
      (s : LeastConnections) (o : Outcome (Unit {0}))
      → o ≡ throws all_excluded
      → answered (s, o) ≡ (s, ok all_gone)
  answered-throws s o e = rw e

  answered-ok :
      (s : LeastConnections) (o : Outcome (Unit {0})) → o ≡ ok tt → answered (s, o) ≡ (s, ok done)
  answered-ok s o e = rw e

  fits-dropped :
      (n : ℕ) (key name : String) (s : LeastConnections) (i : ℕ)
      → ((name : String) (i : ℕ) → connections s name ≡ some i → i + suc n < size_mod)
      → (if str_eq key name then none else connections s name) ≡ some i
      → i + n < size_mod
  fits-dropped n key name s i fits h = elim (Bool-cases (str_eq key name)) [
    | inl same ↦ absurd (Pool.some≢none i (rw same at h))
    | inr differ ↦ omega (arith, fits name i (rw differ at h))
  ]

  exclude-Implements :
      (n : ℕ) (b : Backend) (s : LeastConnections) → Ready (suc n) s → Implements n (exclude b) s
  unfolding perform
  exclude-Implements n b s ready =
      let (key, m, e) = ready.some_counted in
      let (counts, linked, ordered) = exclude_lem b s ready.linked ready.ordered in
      let t : LeastConnections = (exclude_backend b s).0 in
      elim (exclude_end b s key m ready.linked e) [
        | inl (thrown, gone) ↦ (
          t,
          all_gone,
          answered-throws t (exclude_backend b s).1 thrown,
          excludes_last b counts gone,
          inl refl,
        )
        | inr (returned, (name, i, left)) ↦ (
          t,
          done,
          answered-ok t (exclude_backend b s).1 returned,
          excludes b name i counts left,
          inr (
            refl,
            record {
              linked = linked;
              ordered = ordered;
              some_counted = (name, i, left);
              fits = λ name i h.
                  fits-dropped n (to_string b) name s i ready.fits (sym (counts name) ∙ h);
            },
          ),
        )
      ]

  perform-Implements :
      (n : ℕ) (c : Call) (s : LeastConnections) → Ready (suc n) s → Implements n c s
  perform-Implements n select s ready = select-Implements n s ready
  perform-Implements n (increase b) s ready = increase-Implements n b s ready
  perform-Implements n (exclude b) s ready = exclude-Implements n b s ready

  last_ends :
      {m m' : Counts} (c : Call) (cs : List Call) (r : Reply)
      → Step m c r m'
      → is_last r ≡ true
      → Follows m (c ∷ cs) (r ∷ []) m'
  last_ends c cs all_gone step h = ends cs step
  last_ends c cs done step h = cc
  last_ends c cs (chosen b) step h = cc

  -- From a least-connections selector that counts something, linked, with its heap in order and
  -- room for as many connections more as calls, any calls of SelectBackend, IncreaseConnectionCount
  -- and ExcludeBackend answer what the specification on the map of the counts allows, and leave its
  -- counts; they end early only with the exception of the last exclusion.
  pub perform_all-Follows :
      (cs : List Call) (s : LeastConnections)
      → Ready (length cs) s
      → (t : LeastConnections) × (rs : List Reply) × (perform_all cs s ≡ (t, ok rs))
        × Follows (connections s) cs rs (connections t)
  unfolding perform_all
  perform_all-Follows [] s ready = (s, [], refl, finished)
  perform_all-Follows (c ∷ cs) s ready =
      let (t, r, called, step, left) = perform-Implements (length cs) c s ready in
      elim left [
        | inl last ↦ (t, r ∷ [], rw (perform_all, called) (rw last), last_ends c cs r step last)
        | inr (more, ready') ↦
            let (u, rs, later, follows) = perform_all-Follows cs t ready' in
            (u, r ∷ rs, rw (perform_all, called) (rw more (rw later)), goes step more follows)
      ]
