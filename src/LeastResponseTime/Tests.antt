-- ===== src/LeastResponseTime/Tests.antt =====
-- LeastResponseTimeSelector on a concrete backend.
use lb.Common.{String, false, ◌≡◌, refl, [], ◌∷◌, some, ok, decimal}
use lb.Common.Assoc.{find, assign}
use lb.Platform.Heap.{PairingHeap}
use lb.Pool
use lb.Pool.Insertion
use lb.Fixtures.{text_asio, whole_numbers, local}
use lb.Fixtures.Slots.{slots}
use lb.Backend.{Backend, endpoint_text, to_string}
use lb.LeastResponseTime.{
  AverageTimeWrapper, ema_compare, LeastResponseTime, initial, select_backend,
}
use lb.LeastResponseTime.Averages.{name_of, Linked, averages}
use lb.LeastResponseTime.Selection.{select_quickest}

instance abbrev times : PairingHeap AverageTimeWrapper ema_compare
times = slots (λ w. w.response_time_ema)

abbrev here : Backend
here = local 80

abbrev timed_here : AverageTimeWrapper
timed_here = record { backend = here; response_time_ema = 5; alpha = 1 }

abbrev single : LeastResponseTime
single = record { handle_pool = (to_string here, 0) ∷ []; backends = some timed_here ∷ [] }

single-Linked : Linked single
unfolding assign find
single-Linked =
    Insertion.Linked-push times name_of [] timed_here [] refl (Pool.Linked-empty times name_of)

initial-Linked : Linked initial
unfolding initial
initial-Linked = Pool.Linked-empty times name_of

found : find (to_string here) single.handle_pool ≡ some 0
unfolding find to_string endpoint_text decimal
found = refl

average : averages single (to_string here) ≡ some timed_here
unfolding find to_string endpoint_text decimal
average = refl

select_quickest_example :
    (w : AverageTimeWrapper) × (select_backend single ≡ (single, ok w.backend))
    × (averages single (to_string w.backend) ≡ some w)
    × ((name : String) (v : AverageTimeWrapper)
        → averages single name ≡ some v
        → whole_numbers.gtb w.response_time_ema v.response_time_ema ≡ false)
select_quickest_example =
    select_quickest single (to_string here) timed_here single-Linked tt average
