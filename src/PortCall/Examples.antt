-- ===== src/PortCall/Examples.antt =====
-- Tests and concrete instances of the theorems on port calls: a call that starts at 10 with a
-- timeout of 5 in a turn that lasts until 100.
use minicore_runtime.Base.{ℕ, ◌≡◌, ◌≢◌, refl, true, false, List, [], ◌∷◌, Option, some, ok, is_some}
use minicore_runtime.PortCall.{
  Wake, pending, ready, Ended, returned, deadline_exceeded, port, run_port_call, await_future,
}
use minicore_runtime.PortCall.Deadline.{
  ReadyIn, run_port_call-ReadyIn, run_port_call-child, run_port_call_ends,
}

abbrev waiting : Wake ℕ ℕ
waiting = record { parent_cancelled = false; now = 12; future = pending }

abbrev answered : Wake ℕ ℕ
answered = record { parent_cancelled = false; now = 14; future = ready (ok 7) }

abbrev late : Wake ℕ ℕ
late = record { parent_cancelled = false; now = 15; future = ready (ok 7) }

abbrev done : Ended ℕ ℕ
done = record { outcome = returned (ok 7); child = some true }

abbrev calls : List (Wake ℕ ℕ) → Option (Ended ℕ ℕ)
calls = run_port_call 1000 false 10 11 100 5 false

result_in_time : calls (waiting ∷ answered ∷ []) ≡ some done
unfolding run_port_call await_future
result_in_time = refl

deadline_wins :
    calls (waiting ∷ late ∷ [])
    ≡ some (record { outcome = deadline_exceeded port; child = some true })
unfolding run_port_call await_future
deadline_wins = refl

run_port_call-ReadyIn_example : (false ≡ false) × ReadyIn 15 (ok 7) (waiting ∷ answered ∷ [])
run_port_call-ReadyIn_example =
    run_port_call-ReadyIn 1000 false 10 11 100 5 false (waiting ∷ answered ∷ []) done (ok 7)
      result_in_time refl

run_port_call-child_example : done.child ≢ some false
run_port_call-child_example =
    run_port_call-child 1000 false 10 11 100 5 false (waiting ∷ answered ∷ []) done result_in_time

run_port_call_ends_example : is_some (calls (waiting ∷ late ∷ [])) ≡ true
run_port_call_ends_example =
    run_port_call_ends 1000 false 10 11 100 5 false (waiting ∷ late ∷ []) refl
