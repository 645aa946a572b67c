-- ===== src/Platform/Router.antt =====
-- pumba::ConsistentHashingRouter of third_party/pumba, as far as the program uses it.
use lb.Common.{ℕ, Bool, true, ◌≡◌, ◌↔◌, List, [], Outcome, ok, throws, no_nodes, In}

-- What the router asks of its second parameter.
pub record HashTraits (Node : Type 0) : Type 0 where
  pub get_hash : Node → ℕ
  pub replicate : Node → ℕ → Outcome (List ℕ)

-- `nodes` are the physical nodes. `emplace_node` is EmplaceNode with the node that the arguments
-- construct; it throws what `replicate` throws.
pub record Router (Node : Type 0) (traits : HashTraits Node) : Type 1 where
  pub Ring : Type 0
  pub with_replicas : ℕ → Ring
  pub emplace_node : Node → Ring → Ring × Outcome (Unit {0})
  pub erase_node : Node → Ring → Ring
  pub select_node : Node → Ring → Outcome Node
  pub empty : Ring → Bool
  pub nodes : Ring → List Node
  pub nodes_with_replicas : (n : ℕ) → nodes (with_replicas n) ≡ []
  pub empty_iff : (r : Ring) → (empty r ≡ true) ↔ (nodes r ≡ [])
  pub select_empty : (c : Node) (r : Ring) → nodes r ≡ [] → select_node c r ≡ throws no_nodes
  pub select_In : (c n : Node) (r : Ring) → select_node c r ≡ ok n → In n (nodes r)
  pub erase_In : (n m : Node) (r : Ring) → In m (nodes (erase_node n r)) → In m (nodes r)
