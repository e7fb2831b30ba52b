-- ===== src/Core/Hub/Restarts.antt =====
-- internal/core/hub.go: the supervision of a stream that died. A delay is in milliseconds.
use herdr_expose.Prelude.{
  ℕ, zero, suc, ◌+◌, ◌-◌, ◌*◌, Bool, true, false, not, ◌||◌, Option, none, some,
}
use herdr_expose.Prelude.Tests.{leb, ◌==◌, if◌then◌else◌, is_some, or_zero}
use herdr_expose.Prelude.Text.{Text}
use herdr_expose.Prelude.Map.{lookup, insert, delete}
use herdr_expose.Core.Viewport.{is_live}
use herdr_expose.Core.Hub.{
  TerminalMode, Hub, Session, Upstream, Notice, mode_of, notify, request_repaint, start_stream,
}

abbrev pub restart_backoff_min : ℕ
restart_backoff_min = 250

abbrev pub restart_backoff_max : ℕ
restart_backoff_max = 10000

abbrev pub max_restarts : ℕ
max_restarts = 8

-- The loop of `backoffFor` with this many rounds left.
unfoldable pub doubled : ℕ → ℕ → ℕ
doubled zero d = d
doubled (suc n) d =
    let rest = doubled n (d * 2) in
    if leb restart_backoff_max (d * 2) then restart_backoff_max else rest

unfoldable pub backoff_for : ℕ → ℕ
unfolding doubled
backoff_for attempt = doubled (attempt - 1) restart_backoff_min

-- `OnClosed` of the stream of this serial, where it was not stopped on purpose: whether a restart is
-- wanted. The client is told where the target is not live.
unfoldable pub on_closed : Text → ℕ → Session → Session × Bool
on_closed target serial c =
    let own : Bool = elim (lookup target c.streams) [
      | none ↦ false
      | some ls ↦ ls.serial == serial
    ] in
    let c1 = if own then record c { streams = delete target c.streams } else c in
    if c1.closed
    then (c1, false)
    else if is_live (mode_of target c1)
    then (c1, true)
    else (notify (Notice.closed target) c1, false)

-- There is nothing to restart.
abbrev pub is_moot : Text → Session → Bool
is_moot target c =
    c.closed || (not (is_live (mode_of target c)) || is_some (lookup target c.streams))

-- One attempt of `superviseRestart`, after its delay: whether the loop goes on.
unfoldable pub attempt : Upstream → Text → Text → ℕ → Hub × Session → (Hub × Session) × Bool
unfolding start_stream request_repaint
attempt up me target n (h, c) =
    let ((h1, c1), ok_) =
      start_stream up me target TerminalMode.observe
        (h, record c { restart_count = insert target n c.restart_count }) in
    if c.cancelled || is_moot target c
    then ((h, c), false)
    else if ok_
    then ((h1, request_repaint target (notify (Notice.gap target) c1)), false)
    else ((h1, c1), true)

-- The loop with this many attempts left, of which `n` is the next. `meanwhile` is what becomes of the
-- connection and the hub while the loop sleeps before an attempt.
unfoldable pub attempts :
    Upstream
    → Text
    → Text
    → (ℕ → Hub × Session → Hub × Session)
    → ℕ
    → ℕ
    → Hub × Session
    → Hub × Session
unfolding attempt
attempts up me target meanwhile zero n (h, c) =
    (h, notify (Notice.closed target) (record c { restart_count = delete target c.restart_count }))
attempts up me target meanwhile (suc left) n s =
    let (s1, again) = attempt up me target n (meanwhile n s) in
    let rest = attempts up me target meanwhile left (n + 1) s1 in if again then rest else s1

-- A supervision of the target has begun and has not yet run its deferred function.
abbrev pub is_restarting : Text → Session → Bool
is_restarting target c = elim (lookup target c.restarting) [ none ↦ false | some b ↦ b ]

-- The first critical section of `superviseRestart`: nothing where it returns at once.
unfoldable pub begin_restart : Text → Session → Option Session
begin_restart target c =
    if is_moot target c || is_restarting target c
    then none
    else some (record c { restarting = insert target true c.restarting })

-- The deferred function, a critical section of its own.
unfoldable pub end_restart : Text → Session → Session
end_restart target c = record c { restarting = delete target c.restarting }

-- From its start, with the attempts that were made before, to the end of its loop.
unfoldable pub supervise_restart :
    Upstream → Text → Text → (ℕ → Hub × Session → Hub × Session) → Hub × Session → Hub × Session
unfolding attempts begin_restart
supervise_restart up me target meanwhile (h, c) =
    let prior = or_zero (lookup target c.restart_count) in
    elim (begin_restart target c) [
      | none ↦ (h, c)
      | some c1 ↦ attempts up me target meanwhile (max_restarts - prior) (prior + 1) (h, c1)
    ]
