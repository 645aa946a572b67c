-- ===== src/Application/Threads.antt =====
-- How many threads there are, and what their ends leave.
use native.Mathlib.Nat.{mod-eq_of_lt}
use lb.Common.{
  ℕ, zero, suc, ◌+◌, ◌%◌, ◌<◌, ◌≤◌, Bool, true, false, ◌≡◌, refl, List, [], ◌∷◌, arith, size_mod,
  ltb, ltb→lt, Bool-cases, inl, inr, if◌then◌else◌,
}
use lb.Application.{
  Application, Ending, returned, std_exception, unknown_exception, run_threads, create_threads,
  application,
}

-- One of the threads has ended with an exception.
abbrev pub any_failed : List Ending → Bool
any_failed [] = false
any_failed (returned ∷ es) = any_failed es
any_failed (_ ∷ es) = true

stays_failed :
    (es : List Ending)
    → let app : Application = record { exit_code = 1; stopped = true } in run_threads es app ≡ app
unfolding run_threads
stays_failed [] = refl
stays_failed (returned ∷ es) = stays_failed es
stays_failed (std_exception ∷ es) = stays_failed es
stays_failed (unknown_exception ∷ es) = stays_failed es

-- However many threads end, and in whatever order, the exit code is EXIT_FAILURE and the io_context
-- is stopped exactly where one of them has ended with an exception.
pub run_threads_lem :
    (es : List Ending)
    → run_threads es application
      ≡ record { exit_code = if any_failed es then 1 else 0; stopped = any_failed es }
unfolding run_threads application
run_threads_lem [] = refl
run_threads_lem (returned ∷ es) = run_threads_lem es
run_threads_lem (std_exception ∷ es) = stays_failed es
run_threads_lem (unknown_exception ∷ es) = stays_failed es

create_from :
    (fuel i n : ℕ) → i < n → n ≤ i + fuel → n < size_mod → i + suc (create_threads fuel i n) ≡ n
unfolding create_threads
create_from zero i n lt le fits = omega arith
create_from (suc fuel) i n lt le fits =
    let next : (i + 1) % size_mod ≡ i + 1 = mod-eq_of_lt (omega arith) in
    elim (Bool-cases (ltb (i + 1) n)) [
      | inl more ↦
          rw (next, more)
            (let all = create_from fuel (i + 1) n (ltb→lt (i + 1) n more) (omega arith) fits in
              omega arith)
      | inr enough ↦ rw (next, enough) (ground arith)
    ]

-- With as many rounds as threads were asked for, at least one and a std::size_t, the loop of Start
-- ends and creates one thread less: with the main thread as many arrive at the barrier as it waits
-- for.
pub create_threads_lem : (n : ℕ) → 0 < n → n < size_mod → suc (create_threads n 0 n) ≡ n
create_threads_lem n pos fits = let all = create_from n 0 n pos (omega arith) fits in omega arith
