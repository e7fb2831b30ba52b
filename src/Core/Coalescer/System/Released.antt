-- ===== src/Core/Coalescer/System/Released.antt =====
-- What `close` of internal/core/viewport.go leaves behind.
use herdr_expose.Core.Coalescer.System.Owned.{times-held, run_events-start, times-append}
use herdr_expose.Prelude.{ℕ, ◌≡◌, refl, true, List, [], ◌∷◌, arith}
use herdr_expose.Prelude.Tests.{if_split}
use herdr_expose.Core.Coalescer.{Run}
use herdr_expose.Core.Coalescer.Drain.{over_runs}
use herdr_expose.Core.Coalescer.System.{
  held, finishes, start, times, run_events, IsOwned, Event, step, finish_step, System,
}

finish_step-releases :
    (rs : List Run) (s : System) (i : ℕ)
    → IsOwned s
    → s.state.closed ≡ true
    → s.flight ≡ []
    → s.flight ≡ rs
    → times i (finish_step rs s).gone ≡ times i s.given
unfolding finish_step
finish_step-releases [] s i o c f e =
    let k : over_runs (times i) s.flight ≡ 0 = rw f refl in
    if_split (λ (t : System). times i t.gone ≡ times i s.given) s.state.closed
      (λ _.
        omega (
          arith,
          o i,
          k,
          times-append i (held s.state.pending) s.gone,
          times-held i s.state.pending,
        ))
      (λ g. absurd (cc (c, g)))
finish_step-releases (r ∷ rs) s i o c f e = absurd (cc (f, e))

-- When `close` has waited for the writer and finishes, nothing is left behind: every buffer ever
-- pushed has been released or handed over, as often as it was pushed.
pub finishes-releases_all :
    (es : List Event) (i : ℕ)
    → (run_events start es).state.closed ≡ true
    → (run_events start es).flight ≡ []
    → times i (step (run_events start es) finishes).gone ≡ times i (run_events start es).given
unfolding step
finishes-releases_all es i c f =
    finish_step-releases (run_events start es).flight (run_events start es) i (run_events-start es)
      c f refl
