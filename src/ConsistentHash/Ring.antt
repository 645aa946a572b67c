-- ===== src/ConsistentHash/Ring.antt =====
-- What the consistent-hash selector adds to the ring of pumba::ConsistentHashingRouter.
use lb.Common.{
  ℕ, zero, suc, ◌+◌, ◌<◌, String, Bool, true, false, ◌≡◌, refl, sym, ap, ◌∙◌, ◌↔◌, List, [], ◌∷◌,
  some, Outcome, ok, throws, >>=-returned, ok_injective, length, get_elem?, text_append, arith,
  all_excluded, no_nodes, if◌then◌else◌, undefined, int_mod, ◌==◌, Bool-cases, inl, inr,
}
use lb.Platform.{Asio, Ctre, StdHash, LexicalCast}
use lb.Platform.Router.{Router}
use lb.Backend.{Backend, Endpoint, to_string, make_url_backend}
use lb.Backend.RoundTrip.{to_string-made}
use lb.ConsistentHash.{
  get_hash, replica_hash, replicate_from, replicate, backend_traits, ConsistentHash, select_backend,
  exclude_backend,
}

module _ ⦃asio : Asio⦄ ⦃std : StdHash⦄ ⦃ctre : Ctre⦄ ⦃lexical : LexicalCast⦄ where
  -- The text whose hash is the place of a replica on the ring.
  abbrev pub replica_text : Backend → ℕ → String
  replica_text backend i = text_append (to_string backend) (text_append "#" (lexical.cast i))

  replica_hash_lem :
      (b : Backend) (i hash : ℕ) → replica_hash b i ≡ ok hash → hash ≡ std.hash (replica_text b i)
  unfolding replica_hash get_hash
  replica_hash_lem b i hash h =
      let (r, made, same) = >>=-returned (make_url_backend (replica_text b i)) _ h in
      sym (ok_injective same) ∙ ap std.hash (to_string-made (replica_text b i) r made)

  -- The rest of the loop behind the increment of the counter.
  abbrev counted_on : ℕ → Outcome (List ℕ) → Outcome (List ℕ)
  counted_on i next = if i + 1 == int_mod then undefined else next

  counted_on-ok :
      (i : ℕ) (next : Outcome (List ℕ)) (rest : List ℕ)
      → i < int_mod
      → counted_on i next ≡ ok rest
      → (i + 1 < int_mod) × (next ≡ ok rest)
  counted_on-ok i next rest small h = elim (Bool-cases (i + 1 == int_mod)) [
    | inl last ↦ let broken : undefined ≡ ok rest = rw last at h in cc
    | inr more ↦ (ground arith, rw more at h)
  ]

  replicate_from_lem :
      (b : Backend) (left i : ℕ) (hashes : List ℕ)
      → i < int_mod
      → replicate_from b i left ≡ ok hashes
      → (length hashes ≡ left)
        × (i + left < int_mod)
        × ((j : ℕ) → j < left → get_elem? hashes j ≡ some (std.hash (replica_text b (i + j))))
  unfolding replicate_from
  replicate_from_lem b zero i hashes small h =
      rw (← ok_injective h) (refl, omega arith, λ j lt. absurd (omega arith))
  replicate_from_lem b (suc left) i hashes small h =
      let (hash, first, h') = >>=-returned (replica_hash b i) _ h in
      let (rest, later, made) = >>=-returned (counted_on i (replicate_from b (i + 1) left)) _ h' in
      let (next, on) = counted_on-ok i (replicate_from b (i + 1) left) rest small later in
      let (n, fits, all) = replicate_from_lem b left (i + 1) rest next on in
      let here = replica_hash_lem b i hash first in
      rw (← ok_injective made) (ap suc n, omega arith, λ j lt. by_index hash rest here all j lt)
    where
      by_index :
          (hash : ℕ) (rest : List ℕ)
          → hash ≡ std.hash (replica_text b i)
          → ((j : ℕ) → j < left → get_elem? rest j ≡ some (std.hash (replica_text b (i + 1 + j))))
          → (j : ℕ) → j < suc left
          → get_elem? (hash ∷ rest) j ≡ some (std.hash (replica_text b (i + j)))
      by_index hash rest here all zero lt =
          ap some (here ∙ ap (λ (n : ℕ). std.hash (replica_text b n)) (omega arith))
      by_index hash rest here all (suc j) lt =
          all j (omega arith) ∙ ap (λ (n : ℕ). some (std.hash (replica_text b n))) (omega arith)

  -- Where Replicate returns, fewer than 2^31 replicas were asked for, which is what its counter, an
  -- int, can count, and it has as many hashes as replicas: the hash of the backend's text with #
  -- and the number of the replica, in order.
  pub replicate_lem :
      (b : Backend) (replicas : ℕ) (hashes : List ℕ)
      → replicate b replicas ≡ ok hashes
      → (length hashes ≡ replicas)
        × (replicas < int_mod)
        × ((j : ℕ) → j < replicas → get_elem? hashes j ≡ some (std.hash (replica_text b j)))
  unfolding replicate
  replicate_lem b replicas hashes h =
      let (n, fits, all) = replicate_from_lem b replicas 0 hashes (omega arith) h in
      (
        n,
        omega arith,
        λ j lt. all j lt ∙ ap (λ (n : ℕ). some (std.hash (replica_text b n))) (omega arith),
      )

check_ring :
    (t : Bool)
    → ◌≡◌ {A = Outcome (Unit {0})} (if t then throws all_excluded else ok tt) (throws all_excluded)
      ↔ (t ≡ true)
check_ring true = (λ e. refl, λ e. refl)
check_ring false = (λ e. cc, λ e. cc)

module _ ⦃asio : Asio⦄ ⦃std : StdHash⦄ ⦃ctre : Ctre⦄ ⦃lexical : LexicalCast⦄
    ⦃router : Router Backend backend_traits⦄ where
  -- ExcludeBackend of the consistent-hash selector throws exactly where it has left no backend, and
  -- then every SelectBackend throws.
  pub exclude_last :
      (client : Endpoint) (b : Backend) (s : ConsistentHash)
      → (((exclude_backend b s).1 ≡ throws all_excluded)
          ↔ (router.nodes (exclude_backend b s).0.ring ≡ []))
        × ((exclude_backend b s).1 ≡ throws all_excluded
            → select_backend client (exclude_backend b s).0
              ≡ ((exclude_backend b s).0, throws no_nodes))
  unfolding exclude_backend select_backend
  exclude_last client b s =
      let left = router.erase_node b s.ring in
      let empty = router.empty_iff left in
      let thrown = check_ring (router.empty left) in
      (
        (λ h. empty.0 (thrown.0 h), λ e. thrown.1 (empty.1 e)),
        λ h.
            ap (λ (o : Outcome Backend). (record { ring = left }, o))
              (router.select_empty _ left (empty.0 (thrown.0 h))),
      )
