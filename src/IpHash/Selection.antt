-- ===== src/IpHash/Selection.antt =====
-- Which backend SelectBackend of the ip-hash selector returns, and what ExcludeBackend leaves.
use native.Mathlib.Nat.{mod-lt, mod-mod_of_dvd, dvd-mul_right}
use mathlib.Core.List.{foldl, append-nil, append_assoc}
use lb.Common.{
  ℕ, suc, ◌+◌, ◌*◌, ◌%◌, false, ◌≡◌, ◌≢◌, refl, sym, ap, ◌∙◌, ◌⊎◌, ◌↔◌, inl, inr, List, [], ◌∷◌,
  ◌++◌, In, some, ok, throws, all_excluded, undefined, arith, length, get_elem?, get_elem?_in_range,
  In-get_elem?, size_mod,
}
use lb.Platform.{Asio, StdHash, Ctre, Yaml}
use lb.Backend.{Backend, Endpoint, backend_eq}
use lb.Endpoints.{endpoint_nodes, read_all, push_endpoints-read_all}
use lb.Vectors.{remove_all}
use lb.Vectors.Removal.{In-remove_all, check_left_iff}
use lb.IpHash.{IpHash, compute_hash, select_backend, exclude_backend, push_back, configure}

odd : (h port : ℕ) → (h + port * 37 * 37) % size_mod % 2 ≢ (h + suc port * 37 * 37) % size_mod % 2
odd h port e = omega arith

module _ ⦃asio : Asio⦄ ⦃std : StdHash⦄ where
  select_at :
      (client : Endpoint) (x b : Backend) (bs : List Backend)
      → get_elem? (x ∷ bs) (compute_hash client % length (x ∷ bs)) ≡ some b
      → let t : IpHash = record { backends = x ∷ bs } in select_backend client t ≡ (t, ok b)
  unfolding select_backend
  select_at client x b bs e = rw (e, select_backend) (ground arith)

  -- SelectBackend of the ip-hash selector changes nothing. With a backend left it returns the one
  -- at the index that the client's address and port hash to; with none left its behaviour is
  -- undefined.
  pub select_hashed :
      (client : Endpoint) (s : IpHash)
      → ((s.backends ≡ []) × (select_backend client s ≡ (s, undefined)))
        ⊎ ((b : Backend) × (select_backend client s ≡ (s, ok b))
            × (get_elem? s.backends (compute_hash client % length s.backends) ≡ some b)
            × In b s.backends)
  select_hashed client s = split s.backends
    where
      split :
          (bs : List Backend)
          → let t : IpHash = record { backends = bs } in
            ((bs ≡ []) × (select_backend client t ≡ (t, undefined)))
            ⊎ ((b : Backend) × (select_backend client t ≡ (t, ok b))
                × (get_elem? bs (compute_hash client % length bs) ≡ some b)
                × In b bs)
      split [] = inl (refl, unfold select_backend in refl)
      split (x ∷ bs) =
          let i : ℕ = compute_hash client % length (x ∷ bs) in
          let (b, e) = get_elem?_in_range (x ∷ bs) i (mod-lt (compute_hash client) (omega arith)) in
          inr (b, select_at client x b bs e, e, In-get_elem? (x ∷ bs) i b e)

  -- Of an even number of backends, two connections from one address with neighbouring ports get two
  -- different indices: the port takes part in the hash.
  pub neighbour_ports :
      (address : asio.Address) (port n : ℕ)
      → compute_hash (record { address = address; port = port }) % (2 * n)
        ≢ compute_hash (record { address = address; port = suc port }) % (2 * n)
  unfolding compute_hash
  neighbour_ports address port n e =
      let p : ℕ = compute_hash (record { address = address; port = port }) in
      let q : ℕ = compute_hash (record { address = address; port = suc port }) in
      let same : p % 2 ≡ q % 2 =
        sym (mod-mod_of_dvd 2 p (dvd-mul_right 2 n))
        ∙ ap (λ (r : ℕ). r % 2) e
        ∙ mod-mod_of_dvd 2 q (dvd-mul_right 2 n) in
      odd (std.hash (asio.to_string address) * 37 % size_mod) port same

module _ ⦃asio : Asio⦄ where
  -- ExcludeBackend throws exactly when it leaves no backend, and keeps exactly the backends that are
  -- not equal to the excluded one.
  pub exclude_hashed :
      (b : Backend) (s : IpHash)
      → ((exclude_backend b s).1 ≡ throws all_excluded ↔ (exclude_backend b s).0.backends ≡ [])
        × ((y : Backend)
            → In y (exclude_backend b s).0.backends ↔ (In y s.backends × (backend_eq y b ≡ false)))
  unfolding exclude_backend
  exclude_hashed b s = (check_left_iff (remove_all b s.backends), λ y. In-remove_all b y s.backends)

  push_back-foldl :
      (bs : List Backend) (s : IpHash)
      → foldl (λ s b. push_back b s) s bs ≡ record { backends = s.backends ++ bs }
  unfolding push_back
  push_back-foldl [] s = rw append-nil
  push_back-foldl (b ∷ bs) s = push_back-foldl bs (push_back b s) ∙ rw append_assoc

module _ ⦃asio : Asio⦄ ⦃ctre : Ctre⦄ ⦃yaml : Yaml⦄ where
  -- Where the endpoints are a sequence, Configure appends their backends in order, up to the first
  -- one that is refused, whose exception it throws.
  pub configure_hashed :
      (node : yaml.Node) (eps : List yaml.Node) (s : IpHash)
      → endpoint_nodes node ≡ ok eps
      → configure node s ≡ (record { backends = s.backends ++ (read_all eps).0 }, (read_all eps).1)
  unfolding configure
  configure_hashed node eps s e =
      rw (e, configure) (push_endpoints-read_all push_back eps s ∙ rw (push_back-foldl))
