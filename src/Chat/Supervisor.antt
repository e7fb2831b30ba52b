-- ===== src/Chat/Supervisor.antt =====
-- internal/chat/supervisor.go: how often an adapter is restarted. Each run of the child process is
-- what it ended with; times are milliseconds.
pub mod Policy
use herdr_expose.Prelude.{
  ℕ, zero, suc, ◌+◌, ◌-◌, ◌*◌, ◌/◌, ◌%◌, ◌^◌, ◌≤◌, ◌<◌, ◌≡◌, refl, sym, ap, ap₂, subst, ◌∙◌, ◌≢◌,
  ◌↔◌, ◌⊎◌, inl, inr, Bool, true, false, not, ◌&&◌, ◌||◌, Option, none, some, List, [], ◌∷◌, ◌++◌,
  map, append-nil, append_assoc, arith,
}
use herdr_expose.Prelude.Tests.{ltb, leb, ◌==◌, ==_iff, if◌then◌else◌, Bool-cases, Option-cases}
use herdr_expose.Prelude.Text.{Text}

abbrev pub max_restarts : ℕ
max_restarts = 5

abbrev pub restart_backoff : ℕ
restart_backoff = 2000

abbrev pub healthy_run : ℕ
healthy_run = 120000

abbrev pub max_backoff : ℕ
max_backoff = 32000

-- A run that ended: how long it ran, its error, whether the context was cancelled by then, and
-- whether it was cancelled during the wait that follows.
pub record Exit : Type 0 where
  pub ran : ℕ
  pub error : Text
  pub cancelled : Bool
  pub cancelled_waiting : Bool

pub record Supervisor : Type 0 where
  pub restarts : ℕ
  pub backoff : ℕ

pub record GiveUp : Type 0 where
  pub restarts : ℕ
  pub last_err : Text

-- Where one turn of the loop leads: the next run after a wait, a clean stop, or the end of trying.
pub data Turn : Type 0 where
  restart : ℕ → Supervisor → Turn
  stopped : Turn
  gave_up : GiveUp → Turn

unfoldable pub new_supervisor : Supervisor
new_supervisor = record { restarts = 0; backoff = restart_backoff }

-- A healthy run earns a clean slate.
unfoldable pub forgiven : Supervisor → ℕ → Supervisor
forgiven s ran =
    if leb healthy_run ran then record { restarts = 0; backoff = restart_backoff } else s

unfoldable pub after_exit : Supervisor → Exit → Turn
unfolding forgiven
after_exit s e =
    let f = forgiven s e.ran in
    let n = f.restarts + 1 in
    if e.cancelled
    then stopped
    else if ltb max_restarts n
    then gave_up (record { restarts = n - 1; last_err = e.error })
    else if e.cancelled_waiting
    then stopped
    else restart f.backoff (record {
      restarts = n;
      backoff = if ltb f.backoff max_backoff then f.backoff * 2 else f.backoff;
    })

-- `Run` over the runs of the child, and the waits between them: it is still running when the list
-- ends first.
pub data Ended : Type 0 where
  running : Supervisor → Ended
  clean : Ended
  down : GiveUp → Ended

unfoldable pub follow : Turn → (Supervisor → Ended × List ℕ) → Ended × List ℕ
follow (restart wait s) next = let r = next s in (r.0, wait ∷ r.1)
follow stopped next = (clean, [])
follow (gave_up g) next = (down g, [])

unfoldable pub run : Supervisor → List Exit → Ended × List ℕ
unfolding follow after_exit
run s [] = (running s, [])
run s (e ∷ es) = follow (after_exit s e) (λ s'. run s' es)
