-- ===== src/Connector/Clients/Tests.antt =====
-- Clients of one selector on concrete backends.
use lb.Common.{◌≡◌, ◌≤◌, ◌+◌, ◌*◌, refl, true, false, List, [], ◌∷◌, none, some, arith, replicate}
use lb.Fixtures.{text_asio, local}
use lb.Backend.{Endpoint}
use lb.Backend.{backend_eq}
use lb.Session.{connection_refused}
use lb.RoundRobin
use lb.RoundRobin.{RoundRobin}
use lb.Selector.{round_robin_class}
use lb.Connector.Clients.{Clients, Event, arrival, completion, handle_all, is_quiet}
use lb.Connector.Clients.Totals.{Sound}
use lb.Connector.Clients.Safety.{handle_all-Sound}
use lb.Connector.Clients.Quiet.{Attentive, come_to_rest, completed, completed_bound}
use lb.Connector.Clients.OfVectors.{round_robin-Shares}

abbrev two : RoundRobin
two = record { counter = 0; backends = local 81 ∷ local 82 ∷ [] }

abbrev alice : Endpoint
alice = record { address = "10.0.0.1"; port = 4000 }

abbrev bob : Endpoint
bob = record { address = "10.0.0.2"; port = 4000 }

abbrev opened : Clients round_robin_class
opened = record { selector = two; stopped = false; clients = [] }

opened-Sound : Sound round_robin-Shares opened
opened-Sound = record { serves = λ on. record { fit = tt; pos = omega arith }; sane = tt }

-- Both clients find their backends closed, the second one after the first has excluded them.
abbrev busy : List Event
busy =
    arrival alice
    ∷ arrival bob
    ∷ completion 0 (some connection_refused)
    ∷ completion 1 (some connection_refused)
    ∷ completion 0 (some connection_refused)
    ∷ []

handle_all-Sound_example : Sound round_robin-Shares (handle_all round_robin_class busy opened)
handle_all-Sound_example = handle_all-Sound round_robin-Shares busy opened opened-Sound

completed_bound_example : completed round_robin_class busy opened ≤ (0 + 2) * (2 * 2 + 2)
completed_bound_example = completed_bound round_robin-Shares busy opened opened-Sound

abbrev waiting : Clients round_robin_class
waiting = handle_all round_robin_class (arrival alice ∷ []) opened

-- The first backend is closed, the second one answers, and nothing is under way any more.
abbrev answers : List Event
answers = completion 0 (some connection_refused) ∷ replicate 5 (completion 0 none)

apart : ◌≡◌ true false → ⊥
apart p = cc

answers-Attentive : Attentive round_robin_class answers waiting
unfolding Attentive handle_all RoundRobin.select_backend backend_eq RoundRobin.exclude_backend
answers-Attentive = (
  λ busy. refl,
  (
    λ busy. refl,
    (
      λ busy. absurd (apart busy),
      (
        λ busy. absurd (apart busy),
        (λ busy. absurd (apart busy), (λ busy. absurd (apart busy), tt)),
      ),
    ),
  ),
)

come_to_rest_example :
    is_quiet round_robin_class (handle_all round_robin_class answers waiting) ≡ true
unfolding handle_all RoundRobin.select_backend
come_to_rest_example =
    come_to_rest round_robin-Shares answers waiting
      (handle_all-Sound round_robin-Shares (arrival alice ∷ []) opened opened-Sound) (omega arith)
      answers-Attentive
