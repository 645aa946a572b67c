-- ===== src/Connector/HeapPromise.antt =====
-- LeastConnectionsSelector and LeastResponseTimeSelector of src/lb/tcp/selectors.cpp, and what the
-- connector needs.
use lb.Common.{◌≡◌, true}
use lb.Platform.{Asio, Double}
use lb.Platform.Heap.{PairingHeap}
use lb.LeastConnections.{CounterWrapper, connections_compare}
use lb.LeastResponseTime.{AverageTimeWrapper, ema_compare}
use lb.Selector.{ISelector, least_connections_class, least_response_time_class}
use lb.Connector.Retry.{Shrinks}
use lb.Connector.Clients.Shared.{Shares}
use lb.Connector.Clients.OfHeaps.{least_connections-Shares, least_response_time-Shares}

module _ ⦃asio : Asio⦄ where
  -- What clients need that share a selector is more than what one of them needs.
  abbrev pub shares-Shrinks : {i : ISelector} → Shares i → Shrinks i
  shares-Shrinks law = record {
    size = law.size;
    Fit = law.Fit;
    Stands = λ b s. law.stands b s ≡ true;
    select = λ client s fit pos.
        (let (t, b, e, fit', same, stand, there) = law.select client s fit pos in
          (t, b, e, same, fit', there));
    exclude = law.exclude;
  }

module _ ⦃asio : Asio⦄ ⦃heap : PairingHeap CounterWrapper connections_compare⦄ where
  abbrev pub least_connections-Shrinks : Shrinks least_connections_class
  least_connections-Shrinks = shares-Shrinks least_connections-Shares

module _ ⦃asio : Asio⦄ ⦃double : Double⦄ ⦃heap : PairingHeap AverageTimeWrapper ema_compare⦄ where
  abbrev pub least_response_time-Shrinks : Shrinks least_response_time_class
  least_response_time-Shrinks = shares-Shrinks least_response_time-Shares
