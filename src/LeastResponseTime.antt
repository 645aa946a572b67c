-- ===== src/LeastResponseTime.antt =====
-- class LeastResponseTimeSelector of src/lb/tcp/selectors.hpp and selectors.cpp. Every method holds
-- the mutex, so that concurrent calls are a sequence of these functions.
pub mod Averages
pub mod Selection
mod Tests
use lb.Common.{
  String, Bool, List, [], Option, none, some, throws, ok, undefined, Action, and_then, ℤ,
  all_excluded, if◌then◌else◌,
}
use lb.Common.Assoc
use lb.Platform.{Asio, Ctre, Yaml, Double}
use lb.Platform.Heap.{PairingHeap}
use lb.Backend.{Backend, to_string}
use lb.Endpoints.{endpoint_nodes, push_endpoints}

module _ ⦃asio : Asio⦄ ⦃double : Double⦄ where
  pub record AverageTimeWrapper : Type 0 where
    pub backend : Backend
    pub response_time_ema : double.Number
    pub alpha : double.Number

  -- ResponseTimeEMACompare: lhs.response_time_ema > rhs.response_time_ema
  abbrev pub ema_compare : AverageTimeWrapper → AverageTimeWrapper → Bool
  ema_compare lhs rhs = double.gtb lhs.response_time_ema rhs.response_time_ema

  -- An entry as InsertBackend makes it.
  unfoldable pub new_entry : Backend → AverageTimeWrapper
  new_entry b = record {
    backend = b;
    response_time_ema = double.zero_point_zero;
    alpha = double.zero_point_nine;
  }

  -- (1 - alpha) * old_ema + alpha * response_time
  unfoldable pub next_ema : AverageTimeWrapper → ℤ → double.Number
  next_ema w response_time =
      double.add (double.mul (double.sub double.one w.alpha) w.response_time_ema)
        (double.mul w.alpha (double.of_long response_time))

module _ ⦃asio : Asio⦄ ⦃double : Double⦄ ⦃heap : PairingHeap AverageTimeWrapper ema_compare⦄ where
  pub record LeastResponseTime : Type 0 where
    pub handle_pool : List (String × heap.Handle)
    pub backends : heap.Heap

  unfoldable pub initial : LeastResponseTime
  initial = record { handle_pool = []; backends = heap.empty }

  -- LeastResponseTimeSelector::InsertBackend
  unfoldable pub insert_backend : Backend → LeastResponseTime → LeastResponseTime
  unfolding new_entry
  insert_backend b s = record {
    handle_pool = Assoc.assign (to_string b) (heap.pushed (new_entry b) s.backends) s.handle_pool;
    backends = heap.push (new_entry b) s.backends;
  }

  -- LeastResponseTimeSelector::SelectBackend: top() of an empty heap has no defined result.
  unfoldable pub select_backend : Action LeastResponseTime Backend
  select_backend s = elim (heap.top s.backends) [
    | none ↦ (s, undefined)
    | some w ↦ (s, ok w.backend)
  ]

  -- backends_.erase(handle); handle_pool_.erase(str)
  unfoldable pub drop_entry : String → heap.Handle → Action LeastResponseTime (Unit {0})
  drop_entry str k s =
      let left = heap.erase k s.backends in
      (
        record { handle_pool = Assoc.erase str s.handle_pool; backends = left },
        if heap.is_empty left then throws all_excluded else ok tt,
      )

  -- LeastResponseTimeSelector::ExcludeBackend
  unfoldable pub exclude_backend : Backend → Action LeastResponseTime (Unit {0})
  unfolding drop_entry
  exclude_backend b s = elim (Assoc.find (to_string b) s.handle_pool) [
    | none ↦ (s, ok tt)
    | some k ↦ drop_entry (to_string b) k s
  ]

  -- The heap after a new average: `decrease` where it has become smaller, else `increase`.
  unfoldable pub reorder :
      heap.Handle → AverageTimeWrapper → AverageTimeWrapper → heap.Heap → heap.Heap
  reorder k old new h =
      if double.gtb old.response_time_ema new.response_time_ema
      then heap.decrease k (heap.put k new h)
      else heap.increase k (heap.put k new h)

  -- The update of one entry.
  unfoldable pub add_time : heap.Handle → ℤ → Action LeastResponseTime (Unit {0})
  unfolding next_ema reorder
  add_time k response_time s = elim (heap.at k s.backends) [
    | none ↦ (s, undefined)
    | some w ↦ (
      record s {
        backends =
            reorder k w (record w { response_time_ema = next_ema w response_time }) s.backends;
      },
      ok tt,
    )
  ]

  -- LeastResponseTimeSelector::AddResponseTime
  unfoldable pub add_response_time : Backend → ℤ → Action LeastResponseTime (Unit {0})
  unfolding add_time
  add_response_time b response_time s = elim (Assoc.find (to_string b) s.handle_pool) [
    | none ↦ (s, ok tt)
    | some k ↦ add_time k response_time s
  ]

module _ ⦃asio : Asio⦄ ⦃double : Double⦄ ⦃heap : PairingHeap AverageTimeWrapper ema_compare⦄
    ⦃ctre : Ctre⦄ ⦃yaml : Yaml⦄ where
  -- LeastResponseTimeSelector::Configure
  unfoldable pub configure : yaml.Node → Action LeastResponseTime (Unit {0})
  unfolding endpoint_nodes push_endpoints insert_backend
  configure node s = and_then (s, endpoint_nodes node) (push_endpoints insert_backend)
