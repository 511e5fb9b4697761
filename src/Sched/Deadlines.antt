-- ===== src/Sched/Deadlines.antt =====
-- What the queue stands for: each job with the cycles from now until it is due.
use openrisc_tools.Prelude.{All, ℕ, ◌≡◌, List, [], ◌∷◌, ◌&&◌, if◌then◌else◌, ◌==◌}
use openrisc_tools.Prelude.Int.{ℤ, pos, ◌+ℤ◌, ◌≤ℤ◌, ltb_ℤ}
use openrisc_tools.Sched.Defs.{Entry}

pub record Due : Type 0 where
  pub due : ℤ
  pub arg : ℕ
  pub job : ℕ

unfoldable pub deadlines : ℤ → List Entry → List Due
deadlines before [] = []
deadlines before (e ∷ es) =
    record { due = before +ℤ e.time; arg = e.param; job = e.func } ∷ deadlines (before +ℤ e.time) es

-- A job is put in front of the first that is not due before it.
unfoldable pub schedule : Due → List Due → List Due
schedule new [] = new ∷ []
schedule new (d ∷ ds) = if ltb_ℤ d.due new.due then d ∷ schedule new ds else new ∷ d ∷ ds

-- The first job of this function and argument is cancelled.
unfoldable pub cancel : ℕ → ℕ → List Due → List Due
cancel f p [] = []
cancel f p (d ∷ ds) = if d.job == f && d.arg == p then ds else d ∷ cancel f p ds

-- Only the first job may be overdue.
abbrev pub IsOrdered : List Entry → Type 0
IsOrdered [] = Unit {0}
IsOrdered (e ∷ es) = All (λ e. pos 0 ≤ℤ e.time) es

-- Only the place where the times are counted from matters.
pub deadlines-shift :
    (e : Entry) (a b t : ℤ) (es : List Entry)
    → a +ℤ e.time ≡ b +ℤ t
    → deadlines a (e ∷ es) ≡ deadlines b (record e { time = t } ∷ es)
unfolding deadlines
deadlines-shift e a b t es h = rw h
