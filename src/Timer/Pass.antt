-- ===== src/Timer/Pass.antt =====
-- src/core/sp_timer.cpp: what a pass over the list of jobs does.
use evcp.Base.{
  ℕ, ◌+◌, ◌≡◌, refl, [], ◌∷◌, ◌++◌, List, leb, ◌==◌, if◌then◌else◌, inl, inr, Bool-cases,
}
use evcp.Timer.{TimerEntry, at_index, pass}

-- The jobs that are due, in the order of the list.
abbrev pub due : ℕ → List TimerEntry → List ℕ
due now [] = []
due now (e ∷ es) = if leb e.moment now then e.act ∷ due now es else due now es

-- The jobs that stay: those that are not due, and those that come again, at their next moment.
abbrev pub kept : ℕ → List TimerEntry → List TimerEntry
kept now [] = []
kept now (e ∷ es) =
    if leb e.moment now
    then if e.freq == 0 then kept now es else record e { moment = now + e.freq } ∷ kept now es
    else e ∷ kept now es

abbrev pub reversed : List ℕ → List ℕ
reversed [] = []
reversed (x ∷ xs) = reversed xs ++ x ∷ []

-- A pass within one second calls every job that is due once, the last of the list first, and no other;
-- it takes those off that do not come again, and moves those that do to their next moment.
pub pass-due :
    (now : ℕ) (i : ℕ) (es : List TimerEntry)
    → pass (λ k. (now, now)) i es ≡ record { entries = kept now es; called = reversed (due now es) }
unfolding pass at_index
pass-due now i [] = refl
pass-due now i (e ∷ es) =
    rw (pass-due now (i + 1) es)
      (elim (Bool-cases (leb e.moment now)) [ inl y ↦ rw y refl | inr n ↦ rw n refl ])
