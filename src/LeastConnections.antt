-- ===== src/LeastConnections.antt =====
-- class LeastConnectionsSelector of src/lb/tcp/selectors.hpp and selectors.cpp. The mutex is
-- recursive: SelectBackend holds it while it calls IncreaseConnectionCount.
pub mod Counts
pub mod Selection
pub mod Counting
pub mod Membership
pub mod Configuration
pub mod Specification
pub mod Answers
pub mod Refinement
mod Tests
use lb.Common.{
  ℕ, ◌+◌, ◌-◌, ◌%◌, String, Bool, List, [], Option, none, some, throws, ok, undefined, Action,
  and_then, ltb, size_mod, all_excluded, if◌then◌else◌,
}
use lb.Common.Assoc
use lb.Platform.{Asio, Ctre, Yaml}
use lb.Platform.Heap.{PairingHeap}
use lb.Backend.{Backend, to_string}
use lb.Endpoints.{endpoint_nodes, push_endpoints}

module _ ⦃asio : Asio⦄ where
  pub record CounterWrapper : Type 0 where
    pub b : Backend
    pub counter : ℕ

  -- ConnectionsCompare: lhs.counter > rhs.counter
  abbrev pub connections_compare : CounterWrapper → CounterWrapper → Bool
  connections_compare lhs rhs = ltb rhs.counter lhs.counter

module _ ⦃asio : Asio⦄ ⦃heap : PairingHeap CounterWrapper connections_compare⦄ where
  pub record LeastConnections : Type 0 where
    pub handle_pool : List (String × heap.Handle)
    pub backends : heap.Heap

  unfoldable pub initial : LeastConnections
  initial = record { handle_pool = []; backends = heap.empty }

  -- LeastConnectionsSelector::InsertBackend
  unfoldable pub insert_backend : Backend → LeastConnections → LeastConnections
  unfolding to_string Assoc.assign
  insert_backend b s =
      let entry : CounterWrapper = record { b = b; counter = 0 } in
      record {
        handle_pool = Assoc.assign (to_string b) (heap.pushed entry s.backends) s.handle_pool;
        backends = heap.push entry s.backends;
      }

  -- (*handle).counter++; backends_.decrease(handle)
  unfoldable pub count_up : heap.Handle → Action LeastConnections (Unit {0})
  count_up k s = elim (heap.at k s.backends) [
    | none ↦ (s, undefined)
    | some w ↦ (
      record s {
        backends =
            heap.decrease k
              (heap.put k (record w { counter = (w.counter + 1) % size_mod }) s.backends);
      },
      ok tt,
    )
  ]

  -- if ((*handle).counter > 0) { (*handle).counter--; backends_.decrease(handle); }
  unfoldable pub count_down : heap.Handle → Action LeastConnections (Unit {0})
  count_down k s = elim (heap.at k s.backends) [
    | none ↦ (s, undefined)
    | some w ↦
        if ltb 0 w.counter
        then (
          record s {
            backends =
                heap.decrease k (heap.put k (record w { counter = w.counter - 1 }) s.backends);
          },
          ok tt,
        )
        else (s, ok tt)
  ]

  -- LeastConnectionsSelector::IncreaseConnectionCount
  unfoldable pub increase_connection_count : Backend → Action LeastConnections (Unit {0})
  unfolding count_up
  increase_connection_count b s = elim (Assoc.find (to_string b) s.handle_pool) [
    | none ↦ (s, ok tt)
    | some k ↦ count_up k s
  ]

  -- LeastConnectionsSelector::DecreaseConnectionCount
  unfoldable pub decrease_connection_count : Backend → Action LeastConnections (Unit {0})
  unfolding count_down
  decrease_connection_count b s = elim (Assoc.find (to_string b) s.handle_pool) [
    | none ↦ (s, ok tt)
    | some k ↦ count_down k s
  ]

  -- LeastConnectionsSelector::SelectBackend: top() of an empty heap has no defined result.
  unfoldable pub select_backend : Action LeastConnections Backend
  unfolding increase_connection_count
  select_backend s = elim (heap.top s.backends) [
    | none ↦ (s, undefined)
    | some w ↦ and_then (increase_connection_count w.b s) (λ _ s'. (s', ok w.b))
  ]

  -- backends_.erase(handle); handle_pool_.erase(str)
  unfoldable pub drop_entry : String → heap.Handle → Action LeastConnections (Unit {0})
  drop_entry str k s =
      let left = heap.erase k s.backends in
      (
        record { handle_pool = Assoc.erase str s.handle_pool; backends = left },
        if heap.is_empty left then throws all_excluded else ok tt,
      )

  -- LeastConnectionsSelector::ExcludeBackend
  unfoldable pub exclude_backend : Backend → Action LeastConnections (Unit {0})
  unfolding drop_entry
  exclude_backend b s = elim (Assoc.find (to_string b) s.handle_pool) [
    | none ↦ (s, ok tt)
    | some k ↦ drop_entry (to_string b) k s
  ]

module _ ⦃asio : Asio⦄ ⦃heap : PairingHeap CounterWrapper connections_compare⦄ ⦃ctre : Ctre⦄
    ⦃yaml : Yaml⦄ where
  -- LeastConnectionsSelector::Configure
  unfoldable pub configure : yaml.Node → Action LeastConnections (Unit {0})
  unfolding endpoint_nodes push_endpoints insert_backend
  configure node s = and_then (s, endpoint_nodes node) (push_endpoints insert_backend)
