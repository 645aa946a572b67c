-- ===== src/Endpoints/Reading.antt =====
-- Which backends the endpoints of a configuration stand for, by the keys that src/README.md gives:
-- `url`, or `ip` and `port`.
use lb.Common.{ℤ, String, true, false, ◌≡◌, refl, ◌⊎◌, inl, inr, List, [], ◌∷◌, ok}
use lb.Platform.{Asio, Ctre, Yaml}
use lb.Backend.{Backend, make_endpoint, make_url_backend}
use lb.Endpoints.{endpoint_nodes, read_backend, read_all}

module _ ⦃yaml : Yaml⦄ where
  -- The endpoints of a node are the elements of its sequence `endpoints`.
  abbrev pub HasEndpoints : yaml.Node → List yaml.Node → Type 0
  HasEndpoints node eps =
      (yaml.is_defined (yaml.child node "endpoints") ≡ true)
      × (yaml.is_sequence (yaml.child node "endpoints") ≡ true)
      × (yaml.elements (yaml.child node "endpoints") ≡ eps)

  pub endpoint_nodes-read :
      (node : yaml.Node) (eps : List yaml.Node)
      → HasEndpoints node eps
      → endpoint_nodes node ≡ ok eps
  unfolding endpoint_nodes
  endpoint_nodes-read node eps (there, is_sequence, same) = rw (there, is_sequence, same) refl

module _ ⦃asio : Asio⦄ ⦃ctre : Ctre⦄ ⦃yaml : Yaml⦄ where
  abbrev pub ByUrl : yaml.Node → Backend → Type 0
  ByUrl ep b =
      (yaml.is_defined (yaml.child ep "url") ≡ true)
      × ((text : String) × (yaml.as_string (yaml.child ep "url") ≡ ok text)
          × (make_url_backend text ≡ ok b))

  abbrev pub ByAddress : yaml.Node → Backend → Type 0
  ByAddress ep b =
      (yaml.is_defined (yaml.child ep "url") ≡ false)
      × (yaml.is_defined (yaml.child ep "ip") ≡ true)
      × (yaml.is_defined (yaml.child ep "port") ≡ true)
      × ((ip : String) × (port : ℤ) × (yaml.as_string (yaml.child ep "ip") ≡ ok ip)
          × (yaml.as_int (yaml.child ep "port") ≡ ok port)
          × (make_endpoint ip port ≡ ok b))

  -- The endpoint is no scalar and stands for the backend.
  abbrev pub StandsFor : yaml.Node → Backend → Type 0
  StandsFor ep b = (yaml.is_scalar ep ≡ false) × (ByUrl ep b ⊎ ByAddress ep b)

  abbrev pub AllStandFor : List yaml.Node → List Backend → Type 0
  AllStandFor [] [] = Unit {0}
  AllStandFor (ep ∷ eps) (b ∷ bs) = StandsFor ep b × AllStandFor eps bs
  AllStandFor _ _ = ⊥

  read_backend-read : (ep : yaml.Node) (b : Backend) → StandsFor ep b → read_backend ep ≡ ok b
  unfolding read_backend
  read_backend-read ep b (no_scalar, inl (url, (text, read, made))) =
      rw (no_scalar, url) (rw read made)
  read_backend-read ep b
        (no_scalar, inr (no_url, has_ip, has_port, (ip, port, read_ip, read_port, made))) =
      rw (no_scalar, no_url) (rw (has_ip, has_port) (rw read_ip (rw read_port made)))

  pub read_all-read :
      (eps : List yaml.Node) (bs : List Backend) → AllStandFor eps bs → read_all eps ≡ (bs, ok tt)
  unfolding read_all
  read_all-read [] [] h = refl
  read_all-read [] (b ∷ bs) h = absurd h
  read_all-read (ep ∷ eps) [] h = absurd h
  read_all-read (ep ∷ eps) (b ∷ bs) (h, hs) =
      rw (read_backend-read ep b h, read_all-read eps bs hs) refl
