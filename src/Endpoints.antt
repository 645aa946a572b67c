-- ===== src/Endpoints.antt =====
-- What the `Configure` methods of src/lb/tcp/selectors.cpp share: the endpoints of a configuration.
pub mod Reading
use lb.Common.{
  List, [], ◌∷◌, Outcome, ok, throws, undefined, ◌>>=◌, Action, and_then, for_each,
  endpoints_missing, endpoints_not_sequence, field_missing, bad_subscript, not, if◌then◌else◌, ◌≡◌,
  refl,
}
use mathlib.Core.List.{foldl}
use lb.Platform.{Asio, Ctre, Yaml}
use lb.Backend.{Backend, make_endpoint, make_url_backend}

module _ ⦃yaml : Yaml⦄ where
  -- The nodes that the loop runs over, or the exception of the checks before it.
  unfoldable pub endpoint_nodes : yaml.Node → Outcome (List yaml.Node)
  endpoint_nodes node =
      let ep_node = yaml.child node "endpoints" in
      if not (yaml.is_defined ep_node)
      then throws endpoints_missing
      else if not (yaml.is_sequence ep_node)
      then throws endpoints_not_sequence
      else ok (yaml.elements ep_node)

module _ ⦃asio : Asio⦄ ⦃ctre : Ctre⦄ ⦃yaml : Yaml⦄ where
  -- The backend of one endpoint: a URL, else an address with a port.
  unfoldable pub read_backend : yaml.Node → Outcome Backend
  unfolding make_endpoint make_url_backend
  read_backend ep =
      if yaml.is_scalar ep
      then throws bad_subscript
      else if yaml.is_defined (yaml.child ep "url")
      then (do text ← yaml.as_string (yaml.child ep "url"); make_url_backend text)
      else if not (yaml.is_defined (yaml.child ep "ip"))
      then throws (field_missing "ip")
      else if not (yaml.is_defined (yaml.child ep "port"))
      then throws (field_missing "port")
      else (do
        ip ← yaml.as_string (yaml.child ep "ip")
        port ← yaml.as_int (yaml.child ep "port")
        make_endpoint ip port)

  -- The loop of a `Configure` that hands each backend to `push`.
  unfoldable pub push_endpoints {ℓ} :
      {S : Type ℓ} → (Backend → S → S) → List yaml.Node → Action S (Unit {0})
  unfolding for_each
  push_endpoints push = for_each (λ ep s. and_then (s, read_backend ep) (λ b s. (push b s, ok tt)))

  abbrev pub read_then :
      Outcome Backend → List Backend × Outcome (Unit {0}) → List Backend × Outcome (Unit {0})
  read_then (ok b) rest = (b ∷ rest.0, rest.1)
  read_then (throws e) rest = ([], throws e)
  read_then undefined rest = ([], undefined)

  -- The backends up to the first endpoint that is refused, and whether there was one.
  unfoldable pub read_all : List yaml.Node → List Backend × Outcome (Unit {0})
  unfolding read_backend
  read_all [] = ([], ok tt)
  read_all (ep ∷ rest) = read_then (read_backend ep) (read_all rest)

  -- The loop pushes the backends in order, and stops with the exception of the first refused one.
  pub push_endpoints-read_all {ℓ} :
      {S : Type ℓ} (push : Backend → S → S) (eps : List yaml.Node) (s : S)
      → push_endpoints push eps s ≡ (foldl (λ s b. push b s) s (read_all eps).0, (read_all eps).1)
  unfolding push_endpoints read_all
  push_endpoints-read_all push [] s = refl
  push_endpoints-read_all {S} push (ep ∷ rest) s =
      pushed (read_backend ep) (λ b. push_endpoints-read_all push rest (push b s))
    where
      into : S → List Backend × Outcome (Unit {0}) → S × Outcome (Unit {0})
      into s r = (foldl (λ s b. push b s) s r.0, r.1)

      pushed :
          (o : Outcome Backend)
          → ((b : Backend) → push_endpoints push rest (push b s) ≡ into (push b s) (read_all rest))
          → and_then {ℓ, 0, 0}
              (and_then {ℓ, 0, 0} (s, o) (λ b s. (push b s, ok tt)))
              (λ _. push_endpoints push rest)
            ≡ into s (read_then o (read_all rest))
      pushed (ok b) ih = ih b
      pushed (throws e) ih = refl
      pushed undefined ih = refl
