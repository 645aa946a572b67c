-- ===== src/Application/Tests.antt =====
-- Concrete configurations and threads.
use lb.Common.{
  ℕ, In, Bool, ok_injective, size_mod, unsigned_mod, ◌%◌, ◌<◌, String, ◌↔◌, Outcome, replicate,
  map as map_list, some, ◌≡◌, refl, true, false, [], ◌∷◌, ok, pos, arith,
}
use lb.Backend.{Endpoint}
use lb.Platform.Heap.{PairingHeap}
use lb.LeastConnections.{CounterWrapper, connections_compare}
use lb.LeastResponseTime.{AverageTimeWrapper, ema_compare}
use lb.Fixtures.Line.{line}
use lb.Fixtures.Slots.{slots}
use lb.Fixtures.Sorting.{insertion_sort}
use lb.Selector.{Selector, detect_selector, round_robin, round_robin_class}
use lb.Selector.Detection.{algorithms}
use lb.Application.Start.{connector, Running, start, start_lem}
use lb.Fixtures.{
  text_asio, host_ctre, zero_hash, decimal_cast, whole_numbers, local, seq, cons, nil, doc_yaml,
  Doc, Entries, map, entry, end, str, number, flag,
}
use lb.Application.{
  Configuration, Sink, file_sink, config_from_yaml, configure_thread_pool, application, returned,
  run_threads, create_threads, default_pattern,
}
use lb.Application.Configured.{config_from_yaml_lem}
use lb.Application.Run.{Options, exits, run, Succeeds, run-Succeeds}
use lb.Application.Refused.{ending_of, all_refused-exit_code}
use lb.Connector.Clients.{Clients, arrival, completion, handle_all}
use lb.Connector.Clients.OfVectors.{round_robin-Shares}
use lb.Session.{connection_refused}

abbrev config : Doc
config = map (
    entry "acceptor"
      (map (entry "port" (number (pos 80)) (entry "ip_version" (number (pos 6)) end)))
      (entry "thread_pool" (map (entry "threads_number" (str "auto") end)) end))

config_from_yaml_lem_example :
    (false ≡ false)
    × (doc_yaml.is_defined (doc_yaml.child (doc_yaml.child config "acceptor") "ip_version") ≡ true)
    × (doc_yaml.as_unsigned (doc_yaml.child (doc_yaml.child config "acceptor") "port") ≡ ok 80)
unfolding config_from_yaml
config_from_yaml_lem_example =
    config_from_yaml_lem config (record { port = 80; use_ipv6 = false }) refl

abbrev file_config : Doc
file_config = map (entry "truncate" (flag false) (entry "level" (str "info") end))

abbrev sink : Sink
sink = file_sink "logs.txt" true "info" default_pattern

instance abbrev counts : PairingHeap CounterWrapper connections_compare
counts = slots (λ w. w.counter)

instance abbrev times : PairingHeap AverageTimeWrapper ema_compare
times = slots (λ w. w.response_time_ema)

abbrev whole_entries : Entries
whole_entries =
    entry "acceptor"
      (map (entry "port" (number (pos 80)) (entry "ip_version" (number (pos 6)) end)))
      (entry "load_balancing"
        (map (
          entry "algorithm" (str "round_robin") (
            entry "endpoints"
              (seq (
                cons (map (entry "ip" (str "127.0.0.1") (entry "port" (number (pos 81)) end))) nil))
              end)))
        end)

abbrev whole_config : Doc
whole_config = map whole_entries

abbrev listens_at_80 : Configuration
listens_at_80 = record { port = 80; use_ipv6 = false }

abbrev one_backend : Selector
one_backend = (round_robin_class, record { counter = 0; backends = local 81 ∷ [] })

abbrev at_work : Running
at_work = record {
  listens = listens_at_80;
  selector = one_backend;
  registry = record { connector_ptr = some one_backend };
  barrier = 4;
  threads = 4;
}

four_fit : (n : ℕ) → configure_thread_pool 4 whole_config ≡ ok n → n < size_mod
unfolding configure_thread_pool
four_fit n h = let e : 4 ≡ n = ok_injective h in omega arith

start_lem_example :
    (name : String) × (doc_yaml.as_string
        (doc_yaml.child (doc_yaml.child whole_config "load_balancing") "algorithm")
      ≡ ok name)
    × (In (name, round_robin) algorithms)
    × (◌≡◌ {A = Outcome (Unit {0})} (ok tt) (ok tt))
    × (connector at_work.registry ≡ ok one_backend)
    × (configure_thread_pool 4 whole_config ≡ ok at_work.threads)
    × (at_work.barrier ≡ at_work.threads % unsigned_mod)
    × (0 < at_work.barrier)
unfolding start config_from_yaml configure_thread_pool detect_selector create_threads
    lb.RoundRobin.configure lb.Endpoints.read_backend lb.RoundRobin.initial
start_lem_example = start_lem (λ c. ok tt) 4 whole_config at_work refl four_fit

abbrev logged_config : Doc
logged_config = map (entry "logging" (map (entry "file" file_config end)) whole_entries)

abbrev options : Options
options = record { help = false; config = some "config.yaml" }

-- Whatever the path, the same document.
abbrev load_file : String → Outcome Doc
load_file path = ok logged_config

-- Every file can be opened.
abbrev open_file : String → Bool → Outcome (Unit {0})
open_file name truncate = ok tt

run-Succeeds_example :
    (run load_file open_file (ok tt) (λ e. ok tt) 4 (λ r. returned ∷ []) options ≡ exits 0)
    ↔ Succeeds load_file open_file (ok tt) (λ e. ok tt) 4 (λ r. returned ∷ []) options
run-Succeeds_example =
    run-Succeeds load_file open_file (ok tt) (λ e. ok tt) 4 (λ r. returned ∷ []) options

abbrev two_backends : Clients round_robin_class
two_backends = record {
  selector = record { counter = 0; backends = local 81 ∷ local 82 ∷ [] };
  stopped = false;
  clients = [];
}

abbrev alice : Endpoint
alice = record { address = "10.0.0.1"; port = 4000 }

all_refused-exit_code_example :
    let ended =
      handle_all round_robin_class
        (arrival alice ∷ map_list (completion 0) (replicate 2 (some connection_refused)))
        two_backends in
    run_threads (ending_of ended ∷ returned ∷ []) application
    ≡ record { exit_code = 1; stopped = true }
all_refused-exit_code_example =
    all_refused-exit_code round_robin_class round_robin-Shares alice 2 two_backends.selector
      (returned ∷ []) tt (omega arith) (omega arith)
