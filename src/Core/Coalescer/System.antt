-- ===== src/Core/Coalescer/System.antt =====
-- Who owns a pooled buffer of internal/core/viewport.go: the producers, the single writer and
-- `close` as steps of one system.
pub mod Owned
pub mod Released
use herdr_expose.Core.Coalescer.Accounts.{stored-pending}
use herdr_expose.Prelude.Map.{total-insert, at, lookup, Map, total}
use herdr_expose.Prelude.{
  ℕ, ◌+◌, ◌≡◌, refl, Bool, true, false, Option, none, some, List, [], ◌∷◌, ◌++◌, arith,
}
use herdr_expose.Prelude.Tests.{if_split, ltb, ◌==◌, if◌then◌else◌}
use herdr_expose.Prelude.Text.{Text}
use herdr_expose.Core.Coalescer.{
  size, max_queue_bytes, Buf, Pending, Run, Coalescer, Room, new_coalescer, slot, supersede,
  overflow, append, settle, queue_entry, stored, push, gap_room, mark_gap, drain,
}
use herdr_expose.Core.Coalescer.Output.{run_gone}
use herdr_expose.Core.Coalescer.Drain.{over_runs, over_entry, lift-total}

-- The coalescer, the runs that the writer holds, every buffer that was ever pushed, and every one
-- that was released or handed to the socket.
pub record System : Type 0 where
  pub state : Coalescer
  pub flight : List Run
  pub given : List Buf
  pub gone : List Buf

pub data Event : Type 0 where
  pushes : Text → Buf → ℕ → Bool → Event
  gaps : Text → ℕ → ℕ → Event
  drains : Event
  writes : Event
  closes : Event
  finishes : Event

abbrev pub start : System
unfolding new_coalescer
start = record { state = new_coalescer; flight = []; given = []; gone = [] }

abbrev pub held : Map Pending → List Buf
held [] = []
held ((t, p) ∷ m) = p.frames ++ held m

-- The writer drains when it has written all that it lifted before.
unfoldable pub drain_step : List Run → System → System
drain_step (r ∷ rs) s = s
drain_step [] s = let (c, runs) = drain s.state in record s { state = c; flight = runs }

-- It writes one run, with what `writeRun` hands over or releases of it.
unfoldable pub write_step : List Run → System → System
unfolding run_gone
write_step [] s = s
write_step (r ∷ rs) s = record s { flight = rs; gone = run_gone r ++ s.gone }

-- The end of `close`, after the writer has returned: what still waits is released.
unfoldable pub finish_step : List Run → System → System
finish_step (r ∷ rs) s = s
finish_step [] s =
    if s.state.closed
    then record s {
      state = record (s.state) { pending = []; order = [] };
      gone = held s.state.pending ++ s.gone;
    }
    else s

unfoldable pub step : System → Event → System
unfolding drain_step write_step finish_step
step s (pushes target buf hdr_len full) =
    let (c, freed) = push s.state target buf hdr_len full in
    record s { state = c; given = buf ∷ s.given; gone = freed ++ s.gone }
step s (gaps target dropped hdr_len) = record s { state = mark_gap s.state target dropped hdr_len }
step s drains = drain_step s.flight s
step s writes = write_step s.flight s
step s closes = record s { state = record (s.state) { closed = true } }
step s finishes = finish_step s.flight s

unfoldable pub run_events : System → List Event → System
run_events s [] = s
run_events s (e ∷ es) = run_events (step s e) es

-- How often a buffer stands in a list.
abbrev pub times : ℕ → List Buf → ℕ
times i [] = 0
times i (f ∷ fs) = (if f.id == i then 1 else 0) + times i fs

abbrev pub times_held : ℕ → Map Pending → ℕ
times_held i m = total (over_entry (times i)) m

-- Each pushed buffer is in exactly one place: waiting, with the writer, or gone.
abbrev pub IsOwned : System → Type 0
IsOwned s =
    (i : ℕ)
    → times i s.given ≡ times i s.gone + times_held i s.state.pending + over_runs (times i) s.flight
