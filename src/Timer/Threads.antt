-- ===== src/Timer/Threads.antt =====
-- src/core/sp_timer.cpp: the thread of the timer and the main thread, which share `timerLock`.
use evcp.Base.{◌≡◌, refl, ◌∙◌, Bool, true, false}

-- Where `timerLoop` is: at its first lock, at its second one, in a pass, or at its end.
pub data Worker : Type 0 where
  first_lock second_lock passing ended : Worker

-- Where the main thread is: in `timerInit`, behind `pthread_create`; in the loop of its events; or in
-- `timerSetAction`, at the lock or behind it.
pub data Main : Type 0 where
  starting events asking adding : Main

pub record State : Type 0 where
  pub locked : Bool
  pub active : Bool
  pub worker : Worker
  pub main : Main

-- One step of a thread. A lock is taken when it is free; `timerEnvoke` and `timerInit(true)` free it
-- whoever holds it.
pub data Step : State → State → Type 0 where
  takes_first :
      (m : Main)
      → Step
          record { locked = false; active = true; worker = first_lock; main = m }
          record { locked = true; active = true; worker = second_lock; main = m }
  terminates :
      (m : Main)
      → Step
          record { locked = false; active = false; worker = first_lock; main = m }
          record { locked = true; active = false; worker = ended; main = m }
  takes_second :
      (a : Bool) (m : Main)
      → Step
          record { locked = false; active = a; worker = second_lock; main = m }
          record { locked = true; active = a; worker = passing; main = m }
  passes :
      (l a : Bool) (m : Main)
      → Step
          record { locked = l; active = a; worker = passing; main = m }
          record { locked = false; active = a; worker = first_lock; main = m }
  activates :
      (l : Bool) (w : Worker)
      → Step
          record { locked = l; active = false; worker = w; main = starting }
          record { locked = l; active = true; worker = w; main = events }
  envokes :
      (l : Bool) (w : Worker)
      → Step
          record { locked = l; active = true; worker = w; main = events }
          record { locked = false; active = true; worker = w; main = events }
  stops :
      (l : Bool) (w : Worker)
      → Step
          record { locked = l; active = true; worker = w; main = events }
          record { locked = false; active = false; worker = w; main = events }
  asks :
      (l a : Bool) (w : Worker)
      → Step
          record { locked = l; active = a; worker = w; main = events }
          record { locked = l; active = a; worker = w; main = asking }
  takes :
      (a : Bool) (w : Worker)
      → Step
          record { locked = false; active = a; worker = w; main = asking }
          record { locked = true; active = a; worker = w; main = adding }
  adds :
      (l a : Bool) (w : Worker)
      → Step
          record { locked = l; active = a; worker = w; main = adding }
          record { locked = false; active = a; worker = w; main = events }

pub data Steps : State → State → Type 0 where
  stay : (s : State) → Steps s s
  then_step : {s t u : State} → Steps s t → Step t u → Steps s u

-- `pthread_create` has run, and nothing more: `TimerActive` is set behind it.
abbrev pub launched : State
launched = record { locked = false; active = false; worker = first_lock; main = starting }

-- The main thread waits in `timerSetAction` while the timer's thread, which holds the lock, waits for
-- it to be freed.
abbrev pub IsStuck : State → Type 0
IsStuck s = (s.locked ≡ true) × ((s.worker ≡ second_lock) × (s.main ≡ asking))

-- The jobs are set while the main thread holds the lock.
abbrev pub Adding : State → Type 0
Adding s = s.main ≡ adding

stuck_after_step : {s t : State} → Step s t → IsStuck s → t ≡ s
stuck_after_step (takes_first m) (l, (w, h)) = cc
stuck_after_step (terminates m) (l, (w, h)) = cc
stuck_after_step (takes_second a m) (l, (w, h)) = cc
stuck_after_step (passes l' a m) (l, (w, h)) = cc
stuck_after_step (activates l' w') (l, (w, h)) = cc
stuck_after_step (envokes l' w') (l, (w, h)) = cc
stuck_after_step (stops l' w') (l, (w, h)) = cc
stuck_after_step (asks l' a w') (l, (w, h)) = cc
stuck_after_step (takes a w') (l, (w, h)) = cc
stuck_after_step (adds l' a w') (l, (w, h)) = cc

-- If `timerSetAction` is called while the timer's thread waits at its second lock, no step of either
-- thread is possible any more: whatever steps follow, the state is the same.
pub stuck_stays : {s t : State} → Steps s t → IsStuck s → t ≡ s
stuck_stays (stay s) h = refl
stuck_stays (then_step steps last) h =
    let e = stuck_stays steps h in stuck_after_step last (rw e h) ∙ e

-- It takes three steps from the start to get there.
pub launched-IsStuck : (s : State) × (Steps launched s × IsStuck s)
launched-IsStuck = (
  _,
  (
    then_step
        (then_step (then_step (stay launched) (activates false first_lock)) (takes_first events))
        (asks true true second_lock),
    (refl, (refl, refl)),
  ),
)
