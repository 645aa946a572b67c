-- ===== src/Selector.antt =====
-- ISelector and DetectSelector of src/lb/tcp/selectors.hpp and selectors.cpp: the selectors behind one
-- interface, and the choice of one by the configuration.
pub mod Detection
mod Tests
use lb.Common.{
  ℕ, String, Bool, Option, some, none, Outcome, ok, throws, undefined, ◌>>=◌, Action, str_eq,
  if◌then◌else◌, not, ◌==◌, load_balancing_missing, algorithm_missing, replicas_missing,
  unknown_algorithm, bad_subscript,
}
use lb.Platform.{Asio, Ctre, Yaml, StdHash, StdSort, LexicalCast, Double}
use lb.Platform.Heap.{PairingHeap}
use lb.Platform.Router.{Router}
use lb.Backend.{Backend, Endpoint}
use lb.RoundRobin
use lb.Weighted
use lb.IpHash
use lb.ConsistentHash
use lb.LeastConnections
use lb.LeastResponseTime

pub data SelectorType : Type 0 where
  round_robin weighted_round_robin ip_hash consistent_hash : SelectorType
  least_connections least_response_time : SelectorType

module _ ⦃asio : Asio⦄ where
  -- The virtual functions that are called after the configuration; `kind` is Type().
  pub record ISelector : Type 1 where
    pub State : Type 0
    pub kind : SelectorType
    pub select_backend : Endpoint → Action State Backend
    pub exclude_backend : Backend → Action State (Unit {0})

  -- A SelectorPtr: the class and the object.
  abbrev pub Selector : Type 1
  Selector = (i : ISelector) × i.State

  abbrev pub round_robin_class : ISelector
  round_robin_class = record {
    State = RoundRobin.RoundRobin;
    kind = round_robin;
    select_backend = λ client. RoundRobin.select_backend;
    exclude_backend = RoundRobin.exclude_backend;
  }

  abbrev pub weighted_round_robin_class : ISelector
  weighted_round_robin_class = record {
    State = Weighted.Weighted;
    kind = weighted_round_robin;
    select_backend = λ client. Weighted.select_backend;
    exclude_backend = Weighted.exclude_backend;
  }

  abbrev pub ip_hash_class : ⦃std : StdHash⦄ → ISelector
  ip_hash_class ⦃std⦄ = record {
    State = IpHash.IpHash;
    kind = ip_hash;
    select_backend = IpHash.select_backend;
    exclude_backend = IpHash.exclude_backend;
  }

  abbrev pub least_connections_class :
      ⦃counts : PairingHeap LeastConnections.CounterWrapper LeastConnections.connections_compare⦄
      → ISelector
  least_connections_class ⦃counts⦄ = record {
    State = LeastConnections.LeastConnections;
    kind = least_connections;
    select_backend = λ client. LeastConnections.select_backend;
    exclude_backend = LeastConnections.exclude_backend;
  }

  abbrev pub least_response_time_class :
      ⦃double : Double⦄
      ⦃times : PairingHeap LeastResponseTime.AverageTimeWrapper LeastResponseTime.ema_compare⦄
      → ISelector
  least_response_time_class ⦃double⦄ ⦃times⦄ = record {
    State = LeastResponseTime.LeastResponseTime;
    kind = least_response_time;
    select_backend = λ client. LeastResponseTime.select_backend;
    exclude_backend = LeastResponseTime.exclude_backend;
  }

-- The table `selector_switch`.
unfoldable pub selector_switch : String → Option SelectorType
selector_switch name =
    if str_eq name "round_robin"
    then some round_robin
    else if str_eq name "weighted_round_robin"
    then some weighted_round_robin
    else if str_eq name "consistent_hash"
    then some consistent_hash
    else if str_eq name "ip_hash"
    then some ip_hash
    else if str_eq name "least_connections"
    then some least_connections
    else if str_eq name "least_response_time"
    then some least_response_time
    else none

-- The entry of the table for a name, or the exception.
unfoldable pub find_type : String → Outcome SelectorType
unfolding selector_switch
find_type name = elim (selector_switch name) [
  | none ↦ throws (unknown_algorithm name)
  | some t ↦ ok t
]

module _ ⦃asio : Asio⦄ ⦃std : StdHash⦄ ⦃ctre : Ctre⦄ ⦃lexical : LexicalCast⦄
    ⦃router : Router Backend ConsistentHash.backend_traits⦄ where
  abbrev pub consistent_hash_class : ISelector
  consistent_hash_class = record {
    State = ConsistentHash.ConsistentHash;
    kind = consistent_hash;
    select_backend = ConsistentHash.select_backend;
    exclude_backend = ConsistentHash.exclude_backend;
  }

-- The object that a call of Configure has returned on.
abbrev pub configured :
    ⦃asio : Asio⦄ (i : ISelector) → i.State × Outcome (Unit {0}) → Outcome Selector
configured i (s, ok u) = ok (i, s)
configured i (s, throws e) = throws e
configured i (s, undefined) = undefined

module _ ⦃asio : Asio⦄ ⦃hash : StdHash⦄ ⦃ctre : Ctre⦄ ⦃lexical : LexicalCast⦄ ⦃sort : StdSort⦄
    ⦃double : Double⦄ ⦃yaml : Yaml⦄ ⦃router : Router Backend ConsistentHash.backend_traits⦄
    ⦃counts : PairingHeap LeastConnections.CounterWrapper LeastConnections.connections_compare⦄
    ⦃times : PairingHeap LeastResponseTime.AverageTimeWrapper LeastResponseTime.ema_compare⦄ where
  -- The case of the consistent hash: the number of replicas is read first, and must not be 0.
  unfoldable pub make_consistent_hash : yaml.Node → Outcome Selector
  make_consistent_hash node = do
    replicas ← yaml.as_size (yaml.child node "replicas")
    if replicas == 0
        then throws replicas_missing
        else configured consistent_hash_class
            (ConsistentHash.configure node (ConsistentHash.with_replicas replicas))

  -- The switch on the type: a new object, configured.
  unfoldable pub make_selector : SelectorType → yaml.Node → Outcome Selector
  unfolding make_consistent_hash
  make_selector round_robin node =
      configured round_robin_class (RoundRobin.configure node RoundRobin.initial)
  make_selector weighted_round_robin node =
      configured weighted_round_robin_class (Weighted.configure node Weighted.initial)
  make_selector ip_hash node = configured ip_hash_class (IpHash.configure node IpHash.initial)
  make_selector consistent_hash node = make_consistent_hash node
  make_selector least_connections node =
      configured least_connections_class (LeastConnections.configure node LeastConnections.initial)
  make_selector least_response_time node =
      configured least_response_time_class
        (LeastResponseTime.configure node LeastResponseTime.initial)

  -- DetectSelector
  unfoldable pub detect_selector : yaml.Node → Outcome Selector
  unfolding find_type make_selector
  detect_selector node =
      let balancing_node = yaml.child node "load_balancing" in
      if not (yaml.is_defined balancing_node)
      then throws load_balancing_missing
      else if yaml.is_scalar balancing_node
      then throws bad_subscript
      else if not (yaml.is_defined (yaml.child balancing_node "algorithm"))
      then throws algorithm_missing
      else (do
        name ← yaml.as_string (yaml.child balancing_node "algorithm")
        type ← find_type name
        make_selector type balancing_node)
