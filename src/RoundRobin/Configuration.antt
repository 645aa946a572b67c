-- ===== src/RoundRobin/Configuration.antt =====
-- What Configure makes of a configuration.
use mathlib.Core.List.{foldl, append-nil, append_assoc}
use lb.Common.{◌≡◌, ◌∙◌, List, [], ◌∷◌, ◌++◌, ok}
use lb.Platform.{Asio, Ctre, Yaml}
use lb.Backend.{Backend}
use lb.Endpoints.{endpoint_nodes, read_all, push_endpoints-read_all}
use lb.RoundRobin.{RoundRobin, push_back, configure}

module _ ⦃asio : Asio⦄ where
  push_back-foldl :
      (bs : List Backend) (s : RoundRobin)
      → foldl (λ s b. push_back b s) s bs ≡ record s { backends = s.backends ++ bs }
  unfolding push_back
  push_back-foldl [] s = rw append-nil
  push_back-foldl (b ∷ bs) s = push_back-foldl bs (push_back b s) ∙ rw append_assoc

module _ ⦃asio : Asio⦄ ⦃ctre : Ctre⦄ ⦃yaml : Yaml⦄ where
  -- Where the endpoints are a sequence, Configure of the round-robin selector appends their
  -- backends in order, up to the first one that is refused, whose exception it throws; the counter
  -- stays.
  pub configure-read_all :
      (node : yaml.Node) (eps : List yaml.Node) (s : RoundRobin)
      → endpoint_nodes node ≡ ok eps
      → configure node s
        ≡ (record s { backends = s.backends ++ (read_all eps).0 }, (read_all eps).1)
  unfolding configure
  configure-read_all node eps s e =
      rw (e, configure) (push_endpoints-read_all push_back eps s ∙ rw (push_back-foldl))
