-- ===== src/Connector/Tests.antt =====
-- Clients and their sessions on concrete backends.
use lb.Common.{
  ℕ, suc, ◌<◌, size_mod, str_eq, Bool-cases, inl, inr, some_injective, String, ◌≡◌, refl, true,
  List, [], ◌∷◌, none, some, ok, arith, for_each, replicate, Option, decimal,
}
use lb.Common.Assoc.{find, assign, erase}
use lb.Platform.Heap.{PairingHeap}
use lb.Pool
use lb.Pool.Insertion
use lb.Fixtures.{text_asio, whole_numbers, local}
use lb.Fixtures.Slots.{slots}
use lb.Backend.{Backend, backend_eq, Endpoint, endpoint_text, to_string}
use lb.Session.{
  Session, Notice, on_connect, on_request_sent, on_response_receive, ErrorCode, Shutdowns,
  connection_refused, other, make_session, start, handle_client_read, destroy,
}
use lb.Session.Lifecycle.{Runs, started, client_read_failed, destructed}
use lb.RoundRobin
use lb.RoundRobin.{RoundRobin}
use lb.Selector.{round_robin_class, least_connections_class}
use lb.LeastConnections.{
  CounterWrapper, connections_compare, LeastConnections, initial, insert_backend,
}
use lb.LeastConnections
use lb.LeastResponseTime.{AverageTimeWrapper, ema_compare, LeastResponseTime}
use lb.LeastResponseTime.Averages
use lb.LeastResponseTime.Averages.{averages}
use lb.Connector.ResponseTimes.{measured, notify_all, with_times, notify_all-measured}
use lb.LeastConnections.Counts.{Linked, connections, counter_of, name_of}
use lb.Connector.{
  started as starts, broken, complete, make_and_run_session, complete_all,
  least_connections_callback,
}
use lb.Connector.Retry.{Settled, retries_end}
use lb.Connector.Promise.{round_robin-Shrinks}
use lb.Connector.{running, dropped, least_connections_callbacks}
use lb.Connector.Duplicates.Doubled.{refused_forever}
use lb.Connector.Window.{select-after_throw, refused-after_throw}
use lb.Connector.Ledger.Sessions.{AlwaysHolds, Runs-AlwaysHolds}
use lb.Connector.Life.{client_life, dropped_counts}

abbrev two : RoundRobin
two = record { counter = 0; backends = local 81 ∷ local 82 ∷ [] }

abbrev client : Endpoint
client = record { address = "10.0.0.1"; port = 4000 }

abbrev refusals : List (Option ErrorCode)
refusals = some connection_refused ∷ some connection_refused ∷ some connection_refused ∷ none ∷ []

retries_end_example :
    let r = make_and_run_session round_robin_class client two in
    Settled (complete_all round_robin_class client refusals r.0 r.1).1
retries_end_example =
    retries_end round_robin_class round_robin-Shrinks client two refusals tt (omega arith)
      (omega arith)

instance abbrev counts : PairingHeap CounterWrapper connections_compare
counts = slots counter_of

abbrev here : Backend
here = local 80

abbrev wrapper : CounterWrapper
wrapper = record { b = here; counter = 1 }

abbrev chosen : LeastConnections
chosen = record { handle_pool = (to_string here, 0) ∷ []; backends = some wrapper ∷ [] }

chosen-Linked : Linked chosen
unfolding assign find
chosen-Linked =
    Insertion.Linked-push counts name_of [] wrapper [] refl (Pool.Linked-empty counts name_of)

chosen_count : connections chosen (to_string here) ≡ some 1
unfolding find to_string endpoint_text decimal
chosen_count = refl

abbrev clean : Shutdowns
clean = record { of_client = none; of_server = none }

-- The client leaves without a request.
abbrev left : Session String String
left = destroy clean (handle_client_read (some (other 1)) clean (start (make_session 7 true)))

left-Runs : Runs (make_session 7 true) [] [] left
unfolding start make_session handle_client_read
left-Runs = destructed (client_read_failed started refl (other 1) clean) refl refl clean

left_destroyed : left.destroyed ≡ true
unfolding destroy
left_destroyed = refl

refused_forever_example :
    let i = least_connections_class in
    let r = make_and_run_session i client (insert_backend here (insert_backend here initial)) in
    (complete_all i client (replicate 9 (some connection_refused)) r.0 r.1).1 ≡ starts here
refused_forever_example = refused_forever 9 client here

abbrev none_left : RoundRobin
none_left = record { counter = 0; backends = [] }

select-after_throw_example :
    make_and_run_session round_robin_class client none_left ≡ (none_left, broken)
unfolding RoundRobin.exclude_backend backend_eq
select-after_throw_example =
    select-after_throw client (local 81) (record { counter = 0; backends = local 81 ∷ [] })
      none_left refl

abbrev gone : LeastConnections
gone = record { handle_pool = []; backends = none ∷ [] }

refused-after_throw_example :
    complete least_connections_class client (some connection_refused) gone (starts here)
    ≡ (gone, broken)
unfolding LeastConnections.exclude_backend erase find to_string endpoint_text decimal
refused-after_throw_example = refused-after_throw client here chosen gone refl

instance abbrev times : PairingHeap AverageTimeWrapper ema_compare
times = slots (λ w. w.response_time_ema)

abbrev timed_here : AverageTimeWrapper
timed_here = record { backend = here; response_time_ema = 5; alpha = 1 }

abbrev quick : LeastResponseTime
quick = record { handle_pool = (to_string here, 0) ∷ []; backends = some timed_here ∷ [] }

quick-Linked : Averages.Linked quick
unfolding assign find
quick-Linked =
    Insertion.Linked-push times Averages.name_of [] timed_here [] refl
      (Pool.Linked-empty times Averages.name_of)

-- One request, which takes 30.
abbrev one_request : List (Notice × ℕ)
one_request = (on_connect, 100) ∷ (on_request_sent, 120) ∷ (on_response_receive, 150) ∷ []

notify_all-measured_example :
    (t : LeastResponseTime) × (notify_all here one_request 0 quick ≡ (t, ok tt))
    × ((name : String) → averages t name ≡ with_times here (measured one_request 0) quick name)
    × Averages.Linked t
notify_all-measured_example = notify_all-measured here one_request 0 quick quick-Linked

Runs-AlwaysHolds_example : AlwaysHolds 1 left.notices
Runs-AlwaysHolds_example = Runs-AlwaysHolds 7 left-Runs

few : (name : String) (n : ℕ) → connections chosen name ≡ some n → suc (suc n) < size_mod
unfolding find
few name n h = elim (Bool-cases (str_eq (to_string here) name)) [
  | inl same ↦
      let one : ◌≡◌ {A = Option ℕ} (some 1) (some n) = rw same at h in
      let e : 1 ≡ n = some_injective one in omega arith
  | inr differ ↦ let gone : ◌≡◌ {A = Option ℕ} none (some n) = rw differ at h in cc
]

client_life_example :
    let i = least_connections_class in
    let r = make_and_run_session i client chosen in
    (t : LeastConnections) × (b : Backend) × (u : LeastConnections) × (complete_all i client
        (none ∷ none ∷ [])
        r.0
        r.1
      ≡ (t, running b least_connections_callbacks))
    × (for_each (least_connections_callback b) left.notices t ≡ (u, ok tt))
    × ((name : String) → connections u name ≡ connections chosen name)
client_life_example =
    client_life client chosen (to_string here) 1 chosen-Linked tt few chosen_count 7 left-Runs
      left_destroyed

dropped_counts_example :
    let i = least_connections_class in
    let r = make_and_run_session i client chosen in
    (t : LeastConnections) × (b : Backend) × (n : ℕ) × (complete i client (some (other 110)) r.0 r.1
      ≡ (t, dropped))
    × (connections chosen (to_string b) ≡ some n)
    × (connections t (to_string b) ≡ some (suc n))
dropped_counts_example =
    dropped_counts client chosen (to_string here) 1 (other 110) chosen-Linked tt
      (λ name n h. omega (arith, few name n h)) chosen_count refl
