-- ===== src/Tests/Gates.antt =====
-- The rate limiter, the connection gate and the restart policy at concrete inputs.
use herdr_expose.Serve.RateLimiter.Bounds.{granted-le-capacity, end_time, granted}
use herdr_expose.Prelude.Lists.{All}
use herdr_expose.Serve.RateLimiter.Sweep.{refilled-sweep, IsSane}
use herdr_expose.Chat.Supervisor.Policy.{
  crash_loop_ends, new_supervisor-IsPaced, schedule, run-IsPaced, IsCrash, GoodEnd,
}
use herdr_expose.Serve.ConnGate.Caps.{run_calls-caps, open_all, opened, open_of}
use herdr_expose.Chat.Supervisor.{down, GiveUp, run, new_supervisor, Exit}
use herdr_expose.Prelude.Map.{insert, lookup}
use herdr_expose.Serve.ConnGate.{
  conns_of, max_conns_total, max_conns_per_identity, releases, run_calls, acquires, Call,
}
use herdr_expose.Serve.RateLimiter.{
  sweep, Bucket, capacity, unit, spend, maybe_gc, RateLimiter, refilled, allow,
}
use herdr_expose.Prelude.{
  ℕ, ◌+◌, ◌-◌, ◌*◌, ◌≤◌, ◌≡◌, refl, inl, inr, false, some, List, [], ◌∷◌, arith,
}
use herdr_expose.Prelude.Tests.{Bool-cases}
use herdr_expose.Prelude.Text.{text_eq, bytes, Text}

abbrev limiter : RateLimiter
limiter = record {
  buckets = [];
  burst = 2;
  rate_num = 1;
  rate_den = 1;
  idle_ttl = 600000000000;
  max_keys = 4096;
  last_gc = 0;
}

limiter-IsSane : (now : ℕ) → IsSane limiter now
unfolding lookup
limiter-IsSane now = record { refills = omega arith; dated = λ k b e. cc; unique = tt }

abbrev calls : List (ℕ × Text)
calls = (5, bytes "a") ∷ (6, bytes "a") ∷ []

granted-le-capacity_example :
    granted limiter (bytes "a") calls * unit limiter ≤ capacity limiter + (end_time 1 calls - 1) * 1
unfolding allow maybe_gc spend lookup insert
granted-le-capacity_example =
    granted-le-capacity limiter 1 (bytes "a") calls (limiter-IsSane 1)
      (omega arith, omega arith, (omega arith, omega arith, tt))

abbrev tired : RateLimiter
tired = record limiter { buckets = (bytes "a", record { tokens = 7; last = 3 }) ∷ [] }

tired-dated : (k : Text) (b : Bucket) → lookup k tired.buckets ≡ some b → b.last ≤ 700000000003
unfolding lookup
tired-dated k b e = elim (Bool-cases (text_eq (bytes "a") k)) [
  | inl t ↦ let same = rw t at e in ground (arith, same)
  | inr t ↦ let same = rw t at e in cc
]

tired-IsSane : IsSane tired 700000000003
unfolding lookup
tired-IsSane = record { refills = omega arith; dated = tired-dated; unique = (refl, tt) }

refilled-sweep_example :
    refilled tired 700000000003 (lookup (bytes "a") (sweep 600000000000 700000000003 tired.buckets))
    ≡ refilled tired 700000000003 (lookup (bytes "a") tired.buckets)
refilled-sweep_example = refilled-sweep tired 700000000003 (bytes "a") tired-IsSane

abbrev history : List Call
history = acquires 1 (bytes "a") ∷ acquires 2 (bytes "b") ∷ releases 0 ∷ releases 0 ∷ []

run_calls-caps_example :
    (open_of (bytes "a") (run_calls opened history).tickets ≤ max_conns_per_identity)
    × (open_all (run_calls opened history).tickets ≤ max_conns_total)
    × (conns_of (run_calls opened history).gate (bytes "a")
        ≡ open_of (bytes "a") (run_calls opened history).tickets)
    × ((run_calls opened history).gate.total ≡ open_all (run_calls opened history).tickets)
run_calls-caps_example = run_calls-caps history (bytes "a")

abbrev crash : Exit
crash = record { ran = 40; error = bytes "exit 1"; cancelled = false; cancelled_waiting = false }

crash-IsCrash : IsCrash crash
crash-IsCrash = record { brief = omega arith; wanted = refl; waited = refl }

abbrev crashes : List Exit
crashes = crash ∷ crash ∷ crash ∷ crash ∷ crash ∷ crash ∷ []

crash_loop_ends_example :
    (g : GiveUp) × (run new_supervisor crashes ≡ (down g, schedule new_supervisor.restarts))
    × (g.restarts ≡ 5)
unfolding new_supervisor
crash_loop_ends_example =
    crash_loop_ends new_supervisor crashes new_supervisor-IsPaced
      (
        crash-IsCrash,
        (crash-IsCrash, (crash-IsCrash, (crash-IsCrash, (crash-IsCrash, (crash-IsCrash, tt))))),
      )
      (omega arith)

run-IsPaced_example :
    GoodEnd (run new_supervisor crashes).0
    × All (λ (w : ℕ). (2000 ≤ w) × (w ≤ 32000)) (run new_supervisor crashes).1
run-IsPaced_example = run-IsPaced new_supervisor crashes new_supervisor-IsPaced
