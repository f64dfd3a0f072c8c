-- ===== src/Timer.antt =====
-- src/core/sp_timer.cpp: the periodic jobs.
pub mod Pass
pub mod Threads
use evcp.Base.{ℕ, zero, suc, ◌+◌, [], ◌∷◌, ◌++◌, List, Bool, ltb, leb, ◌==◌, if◌then◌else◌}

-- `TimerEntry`; the action with its parameter is a number that stands for it.
pub record TimerEntry : Type 0 where
  pub act : ℕ
  pub freq : ℕ
  pub moment : ℕ

-- What a pass leaves: `TimerTODO`, and the actions that were called, the first one first.
pub record Todo : Type 0 where
  pub entries : List TimerEntry
  pub called : List ℕ

-- The entry at one index of the loop, where `time(NULL)` gives `now` for the test and `later` for the
-- new moment
unfoldable pub at_index : ℕ → ℕ → TimerEntry → Todo → Todo
at_index now later e rest =
    if leb e.moment now
    then record {
      entries =
          if e.freq == 0 then rest.entries else record e { moment = later + e.freq } ∷ rest.entries;
      called = rest.called ++ e.act ∷ [];
    }
    else record rest { entries = e ∷ rest.entries }

-- `for(long i = TimerTODO.size()-1; i>=0; i--)`: the entries behind an index have been gone through when
-- the loop comes to it. `clock` gives the two times at an index. An action does not change the list,
-- since `timerSetAction` waits for the lock that the loop holds.
unfoldable pub pass : (ℕ → ℕ × ℕ) → ℕ → List TimerEntry → Todo
unfolding at_index
pass clock i [] = record { entries = []; called = [] }
pass clock i (e ∷ es) = at_index (clock i).0 (clock i).1 e (pass clock (i + 1) es)

-- `timerSetAction`, at the time `now`
unfoldable pub set_action : ℕ → ℕ → ℕ → ℕ → List TimerEntry → List TimerEntry
set_action now offset act freq todo =
    todo ++ record { act = act; freq = freq; moment = now + offset } ∷ []
