-- ===== src/Chat/Supervisor/Policy.antt =====
-- The restart policy of internal/chat/supervisor.go.
use herdr_expose.Prelude.Lists.{length, drop, All}
use herdr_expose.Chat.Supervisor.{
  GiveUp, follow, restart, stopped, gave_up, running, clean, down, max_restarts, healthy_run, Exit,
  max_backoff, forgiven, after_exit, Supervisor, Turn, Ended, new_supervisor, run,
}
use herdr_expose.Prelude.{
  ℕ, ◌+◌, ◌*◌, ◌≤◌, ◌<◌, ◌≡◌, refl, ap, inl, inr, false, List, [], ◌∷◌, arith,
}
use herdr_expose.Prelude.Tests.{if_split, ltb, leb, ◌==◌, if◌then◌else◌, Bool-cases}

-- The wait after so many restarts in a row.
abbrev pub wait_after : ℕ → ℕ
wait_after n =
    if n == 0
    then 2000
    else if n == 1
    then 4000
    else if n == 2
    then 8000
    else if n == 3
    then 16000
    else 32000

pub record IsPaced (s : Supervisor) : Type 0 where
  pub few : s.restarts ≤ 5
  pub doubled : s.backoff ≡ wait_after s.restarts

pub new_supervisor-IsPaced : IsPaced new_supervisor
unfolding new_supervisor
new_supervisor-IsPaced = record { few = omega arith; doubled = refl }

forgiven-IsPaced : (s : Supervisor) (ran : ℕ) → IsPaced s → IsPaced (forgiven s ran)
unfolding forgiven
forgiven-IsPaced s ran h =
    if_split IsPaced (leb healthy_run ran) (λ _. record { few = omega arith; doubled = refl })
      λ _. h

-- What a turn of a paced supervisor leads to.
abbrev GoodTurn : Turn → Type 0
GoodTurn (restart wait s) = (2000 ≤ wait) × ((wait ≤ 32000) × IsPaced s)
GoodTurn stopped = Unit {0}
GoodTurn (gave_up g) = g.restarts ≡ 5

doubled_next :
    (n b : ℕ)
    → b ≡ wait_after n
    → n < 5
    → (if ltb b max_backoff then b * 2 else b) ≡ wait_after (n + 1)
doubled_next n b e h = ground arith

wait_range : (n : ℕ) → (2000 ≤ wait_after n) × (wait_after n ≤ 32000)
wait_range n = ground arith

after_exit-GoodTurn : (s : Supervisor) (e : Exit) → IsPaced s → GoodTurn (after_exit s e)
unfolding after_exit
after_exit-GoodTurn s e h =
    let p = forgiven-IsPaced s e.ran h in
    if_split GoodTurn e.cancelled (λ _. tt)
      λ _.
        if_split GoodTurn (ltb max_restarts ((forgiven s e.ran).restarts + 1))
          (λ t. ground (arith, p.few))
          λ t.
            if_split GoodTurn e.cancelled_waiting (λ _. tt)
              λ _.
                let w = wait_range (forgiven s e.ran).restarts in
                (
                  ground (arith, p.doubled, w.0),
                  (
                    ground (arith, p.doubled, w.1),
                    record {
                      few = ground arith;
                      doubled =
                          doubled_next (forgiven s e.ran).restarts (forgiven s e.ran).backoff
                            p.doubled (ground arith);
                    },
                  ),
                )

-- What a run of a supervisor ends with.
pub GoodEnd : Ended → Type 0
GoodEnd (running s) = IsPaced s
GoodEnd clean = Unit {0}
GoodEnd (down g) = g.restarts ≡ 5

-- An end and its waits.
abbrev GoodRun : Ended × List ℕ → Type 0
GoodRun r = GoodEnd r.0 × All (λ (w : ℕ). (2000 ≤ w) × (w ≤ 32000)) r.1

follow-GoodRun :
    (t : Turn) (next : Supervisor → Ended × List ℕ)
    → GoodTurn t
    → ((s : Supervisor) → IsPaced s → GoodRun (next s))
    → GoodRun (follow t next)
unfolding follow GoodEnd
follow-GoodRun (restart wait s) next g h = let r = h s g.1.1 in (r.0, ((g.0, g.1.0), r.1))
follow-GoodRun stopped next g h = (tt, tt)
follow-GoodRun (gave_up g) next e h = (e, tt)

-- However the child runs end, a supervisor never counts more than five restarts in a row, waits
-- between 2 and 32 seconds before each, and gives up only after the fifth.
pub run-IsPaced :
    (s : Supervisor) (es : List Exit)
    → IsPaced s
    → GoodEnd (run s es).0 × All (λ (w : ℕ). (2000 ≤ w) × (w ≤ 32000)) (run s es).1
unfolding run GoodEnd
run-IsPaced s [] h = (h, tt)
run-IsPaced s (e ∷ es) h =
    follow-GoodRun (after_exit s e) (λ s'. run s' es) (after_exit-GoodTurn s e h)
      λ s' p. run-IsPaced s' es p

-- A run too short to be forgiven, with nobody asking the supervisor to stop.
pub record IsCrash (e : Exit) : Type 0 where
  pub brief : e.ran < healthy_run
  pub wanted : e.cancelled ≡ false
  pub waited : e.cancelled_waiting ≡ false

-- The waits still to come after so many restarts.
abbrev pub schedule : ℕ → List ℕ
schedule n = drop n (2000 ∷ 4000 ∷ 8000 ∷ 16000 ∷ 32000 ∷ [])

forgiven_brief : (s : Supervisor) (e : Exit) → IsCrash e → forgiven s e.ran ≡ s
unfolding forgiven
forgiven_brief s e c = let b : leb healthy_run e.ran ≡ false = ground (arith, c.brief) in rw b refl

after_exit_crash :
    (s : Supervisor) (e : Exit)
    → IsCrash e
    → s.restarts < 5
    → after_exit s e
      ≡ restart s.backoff (record {
        restarts = s.restarts + 1;
        backoff = if ltb s.backoff max_backoff then s.backoff * 2 else s.backoff;
      })
unfolding after_exit
after_exit_crash s e c h =
    let t : ltb max_restarts (s.restarts + 1) ≡ false = ground arith in
    rw (forgiven_brief s e c) (simp (c.wanted, t, c.waited) refl)

after_exit_last :
    (s : Supervisor) (e : Exit)
    → IsCrash e
    → s.restarts ≡ 5
    → after_exit s e ≡ gave_up (record { restarts = 5; last_err = e.error })
unfolding after_exit
after_exit_last s e c h = rw (forgiven_brief s e c) (simp (c.wanted, h) refl)

-- A crash loop ends: once a supervisor has seen enough brief runs to make six in a row, it has given
-- up for good, after waiting just the rest of 2, 4, 8, 16 and 32 seconds, and no later run matters.
pub crash_loop_ends :
    (s : Supervisor) (es : List Exit)
    → IsPaced s
    → All IsCrash es
    → 6 ≤ s.restarts + length es
    → (g : GiveUp) × (run s es ≡ (down g, schedule s.restarts)) × (g.restarts ≡ 5)
unfolding run follow
crash_loop_ends s [] p c h = absurd (omega (arith, p.few))
crash_loop_ends s (e ∷ es) p c h = elim (Bool-cases (ltb s.restarts 5)) [
  | inl t ↦
      let next : Supervisor = record {
        restarts = s.restarts + 1;
        backoff = if ltb s.backoff max_backoff then s.backoff * 2 else s.backoff;
      } in
      let lt : s.restarts < 5 = ground arith in
      let paced : IsPaced next = record {
        few = omega arith;
        doubled = doubled_next s.restarts s.backoff p.doubled lt;
      } in
      let (g, r, n) = crash_loop_ends next es paced c.1 (omega arith) in
      (g, rw (after_exit_crash s e c.0 lt, follow, r, p.doubled) (schedule_next s.restarts lt g), n)
  | inr t ↦
      let five : s.restarts ≡ 5 = ground (arith, p.few) in
      (
        record { restarts = 5; last_err = e.error },
        rw (after_exit_last s e c.0 five, follow, five) refl,
        refl,
      )
]
  where
    schedule_next :
        (n : ℕ)
        → n < 5
        → (g : GiveUp)
        → ◌≡◌ {A = Ended × List ℕ} (down g, wait_after n ∷ schedule (n + 1)) (down g, schedule n)
    schedule_next n lt g = ap (λ (w : List ℕ). (down g, w)) (ground arith)
