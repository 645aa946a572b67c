-- ===== src/Selector/Tests.antt =====
-- DetectSelector on a concrete configuration.
use lb.Common.{String, ◌≡◌, refl, In, ok, pos, [], ◌∷◌}
use lb.Fixtures.{
  text_asio, host_ctre, doc_yaml, zero_hash, decimal_cast, whole_numbers, local, Doc, map, entry,
  end, seq, cons, nil, str, number,
}
use lb.Fixtures.Line.{line}
use lb.Fixtures.Slots.{slots}
use lb.Fixtures.Sorting.{insertion_sort}
use lb.Platform.Heap.{PairingHeap}
use lb.LeastConnections.{CounterWrapper, connections_compare}
use lb.LeastResponseTime.{AverageTimeWrapper, ema_compare}
use lb.Selector.{detect_selector, ip_hash_class, ip_hash}
use lb.Selector.Detection.{algorithms, detect_selector-kind}

instance abbrev counts : PairingHeap CounterWrapper connections_compare
counts = slots (λ w. w.counter)

instance abbrev times : PairingHeap AverageTimeWrapper ema_compare
times = slots (λ w. w.response_time_ema)

abbrev config : Doc
config = map (
    entry "load_balancing"
      (map (
        entry "algorithm" (str "ip_hash") (
          entry "endpoints"
            (seq
              (cons (map (entry "ip" (str "127.0.0.1") (entry "port" (number (pos 80)) end))) nil))
            end)))
      end)

detect_selector-kind_example :
    (name : String) × (doc_yaml.as_string
        (doc_yaml.child (doc_yaml.child config "load_balancing") "algorithm")
      ≡ ok name)
    × In (name, ip_hash) algorithms
unfolding detect_selector lb.IpHash.configure lb.Endpoints.read_backend lb.IpHash.initial
detect_selector-kind_example =
    detect_selector-kind config (ip_hash_class, record { backends = local 80 ∷ [] }) refl
