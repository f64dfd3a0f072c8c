-- ===== src/Tests/Timers.antt =====
-- Jobs and their thread, at concrete inputs.
use evcp.Base.{false, ◌≡◌, refl, true, [], ◌∷◌, List}
use evcp.Timer.{TimerEntry, pass}
use evcp.Timer.Pass.{kept, due, reversed, pass-due}
use evcp.Timer.Threads.{
  State, Steps, stay, then_step, takes_first, activates, first_lock, asks, launched, second_lock,
  asking, events, stuck_stays,
}

abbrev jobs : List TimerEntry
jobs =
    record { act = 1; freq = 0; moment = 5 }
    ∷ record { act = 2; freq = 10; moment = 5 }
    ∷ record { act = 3; freq = 0; moment = 9 }
    ∷ []

jobs_at_6 : pass (λ i. (6, 6)) 0 jobs ≡ record {
  entries =
      record { act = 2; freq = 10; moment = 16 } ∷ record { act = 3; freq = 0; moment = 9 } ∷ [];
  called = 2 ∷ 1 ∷ [];
}
unfolding pass
jobs_at_6 = refl

pass-due_example :
    pass (λ i. (6, 6)) 0 jobs ≡ record { entries = kept 6 jobs; called = reversed (due 6 jobs) }
pass-due_example = pass-due 6 0 jobs

abbrev both_wait : State
both_wait = record { locked = true; active = true; worker = second_lock; main = asking }

-- Three steps from the start
both_wait-Steps : Steps launched both_wait
both_wait-Steps =
    then_step
      (then_step (then_step (stay launched) (activates false first_lock)) (takes_first events))
      (asks true true second_lock)

stuck_stays_example : both_wait ≡ both_wait
stuck_stays_example = stuck_stays (stay both_wait) (refl, (refl, refl))
