-- ===== src/Core/Coalescer/System/Owned.antt =====
-- Each pooled buffer of internal/core/viewport.go stands in one place.
use herdr_expose.Core.Coalescer.Accounts.{stored-pending}
use herdr_expose.Prelude.Map.{total-insert, at, lookup, Map, total}
use herdr_expose.Prelude.{
  ℕ, ◌+◌, ◌≡◌, refl, Bool, true, false, Option, none, some, List, [], ◌∷◌, ◌++◌, arith,
}
use herdr_expose.Prelude.Tests.{if_split, ltb}
use herdr_expose.Prelude.Text.{Text}
use herdr_expose.Core.Coalescer.{
  size, max_queue_bytes, Buf, Pending, Run, Coalescer, Room, new_coalescer, slot, supersede,
  overflow, append, settle, queue_entry, stored, push, gap_room, mark_gap, drain,
}
use herdr_expose.Core.Coalescer.Writer.{run_gone-all}
use herdr_expose.Core.Coalescer.Drain.{over_runs, over_entry, lift-total}
use herdr_expose.Core.Coalescer.System.{
  pushes, gaps, drains, writes, closes, finishes, start, held, drain_step, write_step, IsOwned,
  times_held, times, step, finish_step, run_events, Event, System,
}

pub times-append : (i : ℕ) (fs gs : List Buf) → times i (fs ++ gs) ≡ times i fs + times i gs
times-append i [] gs = omega arith
times-append i (f ∷ fs) gs = omega (arith, times-append i fs gs)

pub times-held : (i : ℕ) (m : Map Pending) → times i (held m) ≡ times_held i m
unfolding total
times-held i [] = refl
times-held i ((t, p) ∷ m) = omega (arith, times-append i p.frames (held m), times-held i m)

settle-times :
    (i : ℕ) (r : Room) (buf : Buf) (h : ℕ)
    → times i (settle r buf h).freed + times i (settle r buf h).entry.frames
      ≡ times i r.freed + times i r.entry.frames + times i (buf ∷ [])
unfolding settle overflow append
settle-times i r buf h =
    if_split
      (λ (q : Room).
        times i q.freed + times i q.entry.frames
        ≡ times i r.freed + times i r.entry.frames + times i (buf ∷ []))
      (ltb max_queue_bytes (r.bytes + size buf))
      (λ _. omega (
        arith,
        times-append i r.freed (r.entry.frames ++ (buf ∷ [])),
        times-append i r.entry.frames (buf ∷ []),
      ))
      (λ _. omega (arith, times-append i r.entry.frames (buf ∷ [])))

supersede-times :
    (i : ℕ) (full : Bool) (bytes : ℕ) (p : Pending)
    → times i (supersede full bytes p).freed + times i (supersede full bytes p).entry.frames
      ≡ times i p.frames
unfolding supersede
supersede-times i true bytes p = omega arith
supersede-times i false bytes p = omega arith

at-slot : (i h : ℕ) (o : Option Pending) → at (over_entry (times i)) o ≡ times i (slot h o).frames
unfolding slot
at-slot i h none = refl
at-slot i h (some p) = refl

stored-times :
    (i : ℕ) (c : Coalescer) (target : Text) (h : ℕ) (r : Room)
    → times_held i (stored c target h r).pending + times i (slot h (lookup target c.pending)).frames
      ≡ times_held i c.pending + times i r.entry.frames
stored-times i c target h r = rw (stored-pending c target h r) (
    omega (
      arith,
      at-slot i h (lookup target c.pending),
      total-insert (over_entry (times i)) target r.entry c.pending,
    ))

push-times :
    (i : ℕ) (c : Coalescer) (target : Text) (buf : Buf) (h : ℕ) (full : Bool)
    → times i (push c target buf h full).1 + times_held i (push c target buf h full).0.pending
      ≡ times_held i c.pending + times i (buf ∷ [])
unfolding push queue_entry
push-times i c target buf h full =
    if_split
      (λ (r : Coalescer × List Buf).
        times i r.1 + times_held i r.0.pending ≡ times_held i c.pending + times i (buf ∷ []))
      c.closed (λ _. omega arith)
      λ _.
        let p : Pending = queue_entry c target h in
        let r : Room = supersede full c.bytes p in
        omega (
          arith,
          settle-times i r buf h,
          supersede-times i full c.bytes p,
          stored-times i c target h (settle r buf h),
        )

mark_gap-times :
    (i : ℕ) (c : Coalescer) (target : Text) (dropped h : ℕ)
    → times_held i (mark_gap c target dropped h).pending ≡ times_held i c.pending
unfolding mark_gap gap_room queue_entry
mark_gap-times i c target dropped h =
    if_split (λ (d : Coalescer). times_held i d.pending ≡ times_held i c.pending) c.closed
      (λ _. refl)
      λ _. omega (arith, stored-times i c target h (gap_room c (queue_entry c target h) dropped))

drain-times :
    (i : ℕ) (c : Coalescer)
    → times_held i (drain c).0.pending + over_runs (times i) (drain c).1 ≡ times_held i c.pending
unfolding drain
drain-times i c =
    if_split
      (λ (r : Coalescer × List Run).
        times_held i r.0.pending + over_runs (times i) r.1 ≡ times_held i c.pending)
      c.closed (λ _. omega arith) (λ _. lift-total (times i) refl c.order c.pending)

drain_step-IsOwned :
    (rs : List Run) (s : System) → s.flight ≡ rs → IsOwned s → IsOwned (drain_step rs s)
unfolding drain_step
drain_step-IsOwned [] s e o i =
    let k : over_runs (times i) s.flight ≡ 0 = rw e refl in
    omega (arith, o i, k, drain-times i s.state)
drain_step-IsOwned (r ∷ rs) s e o i = o i

write_step-IsOwned :
    (rs : List Run) (s : System) → s.flight ≡ rs → IsOwned s → IsOwned (write_step rs s)
unfolding write_step
write_step-IsOwned [] s e o i = o i
write_step-IsOwned (r ∷ rs) s e o i =
    let k : over_runs (times i) s.flight ≡ times i r.frames + over_runs (times i) rs = rw e refl in
    rw (run_gone-all r) (omega (arith, o i, k, times-append i r.frames s.gone))

finish_step-IsOwned : (rs : List Run) (s : System) → IsOwned s → IsOwned (finish_step rs s)
unfolding finish_step total
finish_step-IsOwned [] s o i =
    if_split
      (λ (t : System).
        times i t.given
        ≡ times i t.gone + times_held i t.state.pending + over_runs (times i) t.flight)
      s.state.closed
      (λ _.
        omega
          (arith, o i, times-append i (held s.state.pending) s.gone, times-held i s.state.pending))
      (λ _. o i)
finish_step-IsOwned (r ∷ rs) s o i = o i

-- Each step keeps every buffer in exactly one place.
pub step-IsOwned : (s : System) (e : Event) → IsOwned s → IsOwned (step s e)
unfolding step
step-IsOwned s (pushes target buf h full) o i = omega (
  arith,
  o i,
  push-times i s.state target buf h full,
  times-append i (push s.state target buf h full).1 s.gone,
)
step-IsOwned s (gaps target dropped h) o i =
    omega (arith, o i, mark_gap-times i s.state target dropped h)
step-IsOwned s drains o i = drain_step-IsOwned s.flight s refl o i
step-IsOwned s writes o i = write_step-IsOwned s.flight s refl o i
step-IsOwned s closes o i = o i
step-IsOwned s finishes o i = finish_step-IsOwned s.flight s o i

run_events-IsOwned : (es : List Event) (s : System) → IsOwned s → IsOwned (run_events s es)
unfolding run_events
run_events-IsOwned [] s o = o
run_events-IsOwned (e ∷ es) s o = run_events-IsOwned es (step s e) (step-IsOwned s e o)

start-IsOwned : IsOwned start
unfolding new_coalescer total
start-IsOwned i = refl

-- Under any interleaving of pushes, gaps, drains, writes and the two halves of `close`, each buffer
-- that was pushed is in one place only, as often as it was pushed: it waits, the writer holds it,
-- or it was released or handed to the socket. So no pooled buffer is released twice or while the
-- writer still holds it.
pub run_events-start : (es : List Event) → IsOwned (run_events start es)
run_events-start es = run_events-IsOwned es start start-IsOwned
