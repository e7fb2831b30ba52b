-- ===== src/Tests/Outputs.antt =====
-- The output plane at concrete inputs.
use herdr_expose.Core.Coalescer.Accounts.{push_accounts, weigh, push_full_undercounts}
use herdr_expose.Core.Coalescer.Drain.{drain-IsValid, over_runs}
use herdr_expose.Core.Coalescer.Writer.{write_run-Delivers, Delivers}
use herdr_expose.Prelude.Map.{insert, total, lookup}
use herdr_expose.Core.Coalescer.Bytes.{push-IsValid, IsValid}
use herdr_expose.Core.Wire.{header_len_for}
use herdr_expose.Core.Coalescer.{
  supersede, queue_entry, sizes, lift, append, settle, payload_len, Pending, max_write_bytes,
  stored, drain, max_queue_bytes, mark_gap, slot, wake, Buf, Coalescer, new_coalescer, Run, push,
}
use herdr_expose.Core.Coalescer.Output.{
  payloads, run_gone, frames_gone, group, gather, write_run, zeros,
}
use herdr_expose.Core.Coalescer.System.{
  finishes, closes, write_step, writes, drain_step, drains, times_held, pushes, step, start, times,
  Event, run_events,
}
use herdr_expose.Core.Coalescer.System.Owned.{run_events-start}
use herdr_expose.Core.Coalescer.System.Released.{finishes-releases_all}
use herdr_expose.Prelude.{
  ◌+◌, ◌%◌, ◌^◌, ◌≡◌, refl, ◌⊎◌, true, false, some, List, [], ◌∷◌, ◌++◌, arith,
}
use herdr_expose.Prelude.Text.{text_ne, text_eq, text_ne, text_eq, bytes}

abbrev first : Buf
first = record { id = 1; b = zeros 12 ++ bytes "hi" }

abbrev second : Buf
second = record { id = 2; b = zeros 12 ++ bytes "ho" }

abbrev events : List Event
events =
    pushes (bytes "a") first 12 false
    ∷ drains
    ∷ pushes (bytes "a") second 12 false
    ∷ writes
    ∷ closes
    ∷ []

run_events-start_example :
    times 2 (run_events start events).given
    ≡ times 2 (run_events start events).gone
      + times_held 2 (run_events start events).state.pending
      + over_runs (times 2) (run_events start events).flight
run_events-start_example = run_events-start events 2

finishes-releases_all_example :
    times 2 (step (run_events start events) finishes).gone ≡ times 2 (run_events start events).given
unfolding run_events step drain_step write_step run_gone frames_gone group gather drain push
    mark_gap lift new_coalescer wake lookup insert text_eq
finishes-releases_all_example = finishes-releases_all events 2 refl refl

abbrev lifted : Run
lifted = record {
  target = bytes "a";
  frames = first ∷ second ∷ [];
  dropped = 0;
  repaint = false;
  hdr_len = 12;
}

write_run-Delivers_example :
    Delivers
      (bytes "a")
      max_write_bytes
      0
      (write_run 0 lifted).0
      (payloads 12 (first ∷ second ∷ []))
unfolding header_len_for
write_run-Delivers_example =
    write_run-Delivers lifted max_write_bytes 0 (omega arith) (omega arith) refl
      ((omega arith, omega arith), ((omega arith, omega arith), tt))

fresh-IsValid : IsValid new_coalescer
unfolding new_coalescer lookup total
fresh-IsValid = record { unique = tt; counted = refl; capped = omega arith; waiting = λ t p e. cc }

push-IsValid_example : IsValid (push new_coalescer (bytes "a") first 12 false).0
push-IsValid_example = push-IsValid new_coalescer (bytes "a") first 12 false fresh-IsValid

abbrev pushed_once : Coalescer
pushed_once = (push new_coalescer (bytes "a") first 12 false).0

drain-IsValid_example :
    IsValid (drain pushed_once).0
    × ((drain pushed_once).0.bytes ≡ 0)
    × ((drain pushed_once).0.order ≡ [])
    × (over_runs sizes (drain pushed_once).1 ≡ pushed_once.bytes)
unfolding push new_coalescer wake
drain-IsValid_example = drain-IsValid pushed_once push-IsValid_example refl

push_accounts_example :
    (p : Pending) × (lookup (bytes "a") (push pushed_once (bytes "a") second 12 false).0.pending
      ≡ some p)
    × ((p.dropped + weigh 12 p.frames) % 2 ^ 64
        ≡ ((slot 12 (lookup (bytes "a") pushed_once.pending)).dropped
            + weigh 12 (slot 12 (lookup (bytes "a") pushed_once.pending)).frames
            + payload_len 12 second)
          % 2 ^ 64)
    × ((p.repaint ≡ true)
        ⊎ (p.dropped ≡ (slot 12 (lookup (bytes "a") pushed_once.pending)).dropped))
    × (lookup (bytes "b") (push pushed_once (bytes "a") second 12 false).0.pending
        ≡ lookup (bytes "b") pushed_once.pending)
unfolding push new_coalescer wake stored settle append slot text_eq queue_entry supersede insert
    lookup
push_accounts_example =
    push_accounts pushed_once (bytes "a") (bytes "b") second 12
      (text_ne (bytes "a") (bytes "b") refl) refl refl

-- Another target's frames fill the queue.
abbrev full_queue : Coalescer
full_queue = record {
  pending = [];
  order = [];
  bytes = max_queue_bytes;
  closed = false;
  signalled = true;
}

push_full_undercounts_example :
    (p : Pending) × (lookup (bytes "a") (push full_queue (bytes "a") first 12 true).0.pending
      ≡ some p)
    × (p.frames ≡ [])
    × (p.repaint ≡ true)
    × (p.dropped ≡ payload_len 12 first % 2 ^ 64)
unfolding lookup slot
push_full_undercounts_example =
    push_full_undercounts full_queue (bytes "a") first 12 refl (omega arith)
