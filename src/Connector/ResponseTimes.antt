-- ===== src/Connector/ResponseTimes.antt =====
-- What the notifications of a session, each at its time, do to the averages of the
-- least-response-time selector: LeastResponseTimeCallbacks of src/lb/tcp/connector.cpp with
-- AddResponseTime of src/lb/tcp/selectors.cpp.
use mathlib.Core.Option
use lb.Common.{
  zero, suc, pos, negsuc, arith, ℕ, ℤ, String, ◌≡◌, refl, ◌∙◌, List, [], ◌∷◌, Option, none, some,
  ok, Action, and_then, str_eq, if◌then◌else◌, Bool-cases, inl, inr,
}
use lb.Platform.{Asio, Double}
use lb.Platform.Heap.{PairingHeap}
use lb.Backend.{Backend, to_string}
use lb.Session.{
  Notice, on_connect, on_disconnect, on_response_receive, on_response_sent, on_request_receive,
  on_request_sent,
}
use lb.LeastResponseTime.{AverageTimeWrapper, ema_compare, LeastResponseTime, add_response_time}
use lb.LeastResponseTime.Averages.{Linked, averages, timed, add_response_time_lem}
use lb.Connector.{least_response_time_callback, duration}

-- The difference m - n.
abbrev pub difference : ℕ → ℕ → ℤ
difference m zero = pos m
difference zero (suc n) = negsuc n
difference (suc m) (suc n) = difference m n

duration-difference : (begin now : ℕ) → duration begin now ≡ difference now begin
duration-difference zero now = ground arith
duration-difference (suc begin) zero = ground arith
duration-difference (suc begin) (suc now) = same_step begin now ∙ duration-difference begin now
  where
    same_step : (begin now : ℕ) → duration (suc begin) (suc now) ≡ duration begin now
    same_step begin now = ground arith

-- The durations from the last request that was sent to each response that was received.
abbrev pub measured : List (Notice × ℕ) → ℕ → List ℤ
measured [] begin = []
measured ((on_request_sent, now) ∷ ns) begin = measured ns now
measured ((on_response_receive, now) ∷ ns) begin = difference now begin ∷ measured ns begin
measured (n ∷ ns) begin = measured ns begin

module _ ⦃asio : Asio⦄ ⦃double : Double⦄ where
  -- An entry after response times, the first one first.
  abbrev pub all_timed : List ℤ → AverageTimeWrapper → AverageTimeWrapper
  all_timed [] w = w
  all_timed (time ∷ times) w = all_timed times (timed time w)

module _ ⦃asio : Asio⦄ ⦃double : Double⦄ ⦃heap : PairingHeap AverageTimeWrapper ema_compare⦄ where
  -- The notifications of a list, each with its time; `response_begin` is a member of the notifier.
  unfoldable pub notify_all : Backend → List (Notice × ℕ) → ℕ → Action LeastResponseTime (Unit {0})
  unfolding least_response_time_callback
  notify_all b [] response_begin s = (s, ok tt)
  notify_all b ((n, now) ∷ ns) response_begin s =
      let r = least_response_time_callback b n now response_begin s in
      and_then r.1 (λ _. notify_all b ns r.0)

  -- The averages with those of one name changed.
  abbrev pub with_times : Backend → List ℤ → LeastResponseTime → String → Option AverageTimeWrapper
  with_times b times s name =
      if str_eq (to_string b) name
      then Option.map (all_timed times) (averages s name)
      else averages s name

  with_times-nil :
      (b : Backend) (s : LeastResponseTime) (name : String)
      → averages s name ≡ with_times b [] s name
  with_times-nil b s name = elim (Bool-cases (str_eq (to_string b) name)) [
    | inl same ↦ rw same (same_option (averages s name))
    | inr differ ↦ rw differ
  ]
    where
      same_option : (o : Option AverageTimeWrapper) → o ≡ Option.map (all_timed []) o
      same_option none = refl
      same_option (some w) = refl

  with_times-cons :
      (b : Backend) (time : ℤ) (times : List ℤ) (s t : LeastResponseTime) (name : String)
      → averages t name ≡ (
          if str_eq (to_string b) name
          then Option.map (timed time) (averages s name)
          else averages s name)
      → with_times b times t name ≡ with_times b (time ∷ times) s name
  with_times-cons b time times s t name h = elim (Bool-cases (str_eq (to_string b) name)) [
    | inl same ↦
        let here : averages t name ≡ Option.map (timed time) (averages s name) = rw same at h in
        rw (same, here) (twice (averages s name))
    | inr differ ↦
        let here : averages t name ≡ averages s name = rw differ at h in rw (differ, here)
  ]
    where
      twice :
          (o : Option AverageTimeWrapper)
          → Option.map (all_timed times) (Option.map (timed time) o)
            ≡ Option.map (all_timed (time ∷ times)) o
      twice none = refl
      twice (some w) = refl

  -- From a linked least-response-time selector the notifications of a session all return. The entry
  -- of the backend, if there is one, has taken in the time from the last request that was sent to
  -- each response that was received, in order; the others are as before, and pool and heap are
  -- linked.
  pub notify_all-measured :
      (b : Backend) (ns : List (Notice × ℕ)) (response_begin : ℕ) (s : LeastResponseTime)
      → Linked s
      → (t : LeastResponseTime) × (notify_all b ns response_begin s ≡ (t, ok tt))
        × ((name : String) → averages t name ≡ with_times b (measured ns response_begin) s name)
        × Linked t
  unfolding notify_all
  notify_all-measured b [] begin s l = (s, refl, with_times-nil b s, l)
  notify_all-measured b ((on_request_sent, now) ∷ ns) begin s l = notify_all-measured b ns now s l
  notify_all-measured b ((on_response_receive, now) ∷ ns) begin s l =
      let (t, added, entries, l') = add_response_time_lem b (difference now begin) s l in
      let called : add_response_time b (duration begin now) s ≡ (t, ok tt) =
        rw (duration-difference begin now) added in
      let (u, rest, later, l'') = notify_all-measured b ns begin t l' in
      (
        u,
        rw called rest,
        λ name.
            later name
            ∙ with_times-cons b (difference now begin) (measured ns begin) s t name (entries name),
        l'',
      )
  notify_all-measured b ((on_connect, now) ∷ ns) begin s l = notify_all-measured b ns begin s l
  notify_all-measured b ((on_disconnect, now) ∷ ns) begin s l = notify_all-measured b ns begin s l
  notify_all-measured b ((on_response_sent, now) ∷ ns) begin s l =
      notify_all-measured b ns begin s l
  notify_all-measured b ((on_request_receive, now) ∷ ns) begin s l =
      notify_all-measured b ns begin s l
