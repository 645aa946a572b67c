-- ===== src/Weighted/Configuration.antt =====
-- What Configure of the weighted selector makes of a configuration.
use mathlib.Core.List.{
  append-nil, append_assoc, mem-cons, mem-cons_self, mem-cons_of_mem, not-mem-nil,
}
use mathlib.Core.List.Perm
use mathlib.Core.Logic.Or
use native.Mathlib.Nat.{ℕ_set}
use lb.Common.{
  ◌≡◌, refl, ap, ◌∙◌, sym, List, [], ◌∷◌, ◌++◌, Mem, Perm, Outcome, ok, ◌>>=◌, >>=-returned,
  ok_injective, for_each, ltb,
}
use lb.Platform.{Asio, Ctre, Yaml, StdSort, Descending}
use lb.Endpoints.{endpoint_nodes}
use lb.Weighted.{
  WeightWrapper, Weighted, initial, read_weight, read_weighted_backend, read_entry, push_entry,
  configure,
}
use lb.Weighted.Schedule.{AllIdle}

module _ ⦃asio : Asio⦄ where
  idle_of_mem :
      (es : List WeightWrapper) (e : WeightWrapper) → AllIdle es → Mem e es → e.current ≡ 0
  idle_of_mem [] e h m = absurd (not-mem-nil m)
  idle_of_mem (x ∷ es) e h m =
      Or.elim (ℕ_set _ _) (mem-cons.0 m) (λ same. ap (λ (y : WeightWrapper). y.current) same ∙ h.0)
        (idle_of_mem es e h.1)

  AllIdle-of_mem :
      (es : List WeightWrapper) → ((e : WeightWrapper) → Mem e es → e.current ≡ 0) → AllIdle es
  AllIdle-of_mem [] h = tt
  AllIdle-of_mem (x ∷ es) h =
      (h x mem-cons_self, AllIdle-of_mem es (λ e m. h e (mem-cons_of_mem x m)))

module _ ⦃asio : Asio⦄ ⦃ctre : Ctre⦄ ⦃yaml : Yaml⦄ where
  -- The entries of the endpoints, or the exception of the first one that is refused.
  unfoldable pub read_entries : List yaml.Node → Outcome (List WeightWrapper)
  unfolding read_entry
  read_entries [] = ok []
  read_entries (ep ∷ eps) = do e ← read_entry ep; es ← read_entries eps; ok (e ∷ es)

  read_entry-current : (ep : yaml.Node) (e : WeightWrapper) → read_entry ep ≡ ok e → e.current ≡ 0
  unfolding read_entry
  read_entry-current ep e h =
      let (w, hw, h') = >>=-returned (read_weight ep) _ h in
      let (b, hb, made) = >>=-returned (read_weighted_backend ep) _ h' in
      sym (ap (λ (x : WeightWrapper). x.current) (ok_injective made))

  -- The first entry and the rest, where all endpoints are accepted.
  read_entries-cons :
      (ep : yaml.Node) (eps : List yaml.Node) (es : List WeightWrapper)
      → read_entries (ep ∷ eps) ≡ ok es
      → (e : WeightWrapper) × (rest : List WeightWrapper) × (read_entry ep ≡ ok e)
        × (read_entries eps ≡ ok rest)
        × (es ≡ e ∷ rest)
  unfolding read_entries
  read_entries-cons ep eps es h =
      let (e, he, h') = >>=-returned (read_entry ep) _ h in
      let (rest, hr, made) = >>=-returned (read_entries eps) _ h' in
      (e, rest, he, hr, sym (ok_injective made))

  read_entries-nil : (es : List WeightWrapper) → read_entries [] ≡ ok es → [] ≡ es
  unfolding read_entries
  read_entries-nil es h = ok_injective h

  read_entries-AllIdle :
      (eps : List yaml.Node) (es : List WeightWrapper) → read_entries eps ≡ ok es → AllIdle es
  read_entries-AllIdle [] es h = rw (← read_entries-nil es h) tt
  read_entries-AllIdle (ep ∷ eps) es h =
      let (e, rest, he, hr, made) = read_entries-cons ep eps es h in
      rw made (read_entry-current ep e he, read_entries-AllIdle eps rest hr)

  push_read :
      (ep : yaml.Node) (e : WeightWrapper) (s : Weighted)
      → read_entry ep ≡ ok e
      → push_entry ep s ≡ (record s { backends = s.backends ++ e ∷ [] }, ok tt)
  unfolding push_entry
  push_read ep e s h = rw (h, push_entry)

  push_entries :
      (eps : List yaml.Node) (s : Weighted) (es : List WeightWrapper)
      → read_entries eps ≡ ok es
      → for_each push_entry eps s ≡ (record s { backends = s.backends ++ es }, ok tt)
  unfolding for_each
  push_entries [] s es h = rw (← read_entries-nil es h, append-nil)
  push_entries (ep ∷ eps) s es h =
      let (e, rest, he, hr, made) = read_entries-cons ep eps es h in
      rw (push_read ep e s he, made)
        (push_entries eps (record s { backends = s.backends ++ e ∷ [] }) rest hr ∙ rw append_assoc)

  -- Where every endpoint has a weight and a backend, Configure of a new selector returns, and
  -- leaves it at the start of a round with the entries read, in an order of falling weights.
  pub configure-initial :
      ⦃std : StdSort⦄ (node : yaml.Node) (eps : List yaml.Node) (es : List WeightWrapper)
      → endpoint_nodes node ≡ ok eps
      → read_entries eps ≡ ok es
      → (s : Weighted) × (configure node initial ≡ (s, ok tt))
        × Perm s.backends es
        × Descending (λ e. e.weight) s.backends
        × AllIdle s.backends
        × (s.counter ≡ 0)
  unfolding configure initial
  configure-initial ⦃std⦄ node eps es found read =
      let sorted : List WeightWrapper = std.sort (λ a b. ltb b.weight a.weight) es in
      let perm = std.sort_perm (λ (a b : WeightWrapper). ltb b.weight a.weight) es in
      let idle = read_entries-AllIdle eps es read in
      (
        record { backends = sorted; counter = 0 },
        rw (found, configure)
            (rw (push_entries eps (record { backends = []; counter = 0 }) es read)),
        perm,
        std.sort_by_key (λ e. e.weight) es,
        AllIdle-of_mem sorted (λ e m. idle_of_mem es e idle ((Perm.mem_iff perm).0 m)),
        refl,
      )
