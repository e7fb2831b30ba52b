-- ===== src/Core/Hub/Recovery.antt =====
-- internal/core/hub.go: how long a restart waits, and how a restart loop ends.
use Prim.Native.Nat.{min}
use herdr_expose.Prelude.{
  ℕ, zero, suc, ◌+◌, ◌-◌, ◌*◌, ◌^◌, ◌≤◌, ◌≡◌, refl, sym, ap, ◌∙◌, ◌⊎◌, inl, inr, Bool, true, false,
  not, ◌||◌, none, some, List, arith,
}
use herdr_expose.Prelude.Tests.{
  if_split, leb, if◌then◌else◌, Bool-cases, Option-cases, is_some, or_zero,
}
use herdr_expose.Prelude.Lists.{snoc}
use herdr_expose.Prelude.Text.{Text, text_eq}
use herdr_expose.Prelude.Map.{Map, lookup, insert, lookup-insert, lookup-insert_self}
use herdr_expose.Core.Viewport.{Geometry, same_geometry, is_transcript, is_live, valid}
use herdr_expose.Core.Hub.{
  TerminalMode, SharedStream, Hub, Session, Upstream, Notice, mode_of, geometry_at, notify,
  note_attached, request_repaint, start_stream, attach_shared, open_shared, open_private,
  join_shared, fresh_stream, is_shareable,
}
use herdr_expose.Core.Hub.Restarts.{
  doubled, backoff_for, is_moot, attempt, attempts, supervise_restart, begin_restart, is_restarting,
  max_restarts,
}

power_positive : (n : ℕ) → 1 ≤ 2 ^ n
power_positive zero = omega arith
power_positive (suc n) = omega (arith, power_positive n)

le_mul : (a p : ℕ) → 1 ≤ p → a ≤ a * p
le_mul a zero h = absurd (omega (arith, h))
le_mul a (suc p) h = omega arith

twice : (d p : ℕ) → d * (2 * p) ≡ d * 2 * p
twice d p = omega arith

power_twice : (n : ℕ) → 2 ^ suc n ≡ 2 * 2 ^ n
power_twice n = omega arith

doubled_min : (n d : ℕ) → d ≤ 10000 → doubled n d ≡ min (d * 2 ^ n) 10000
unfolding doubled
doubled_min zero d h = omega (arith, h)
doubled_min (suc n) d h = elim (Bool-cases (leb 10000 (d * 2))) [
  | inl t ↦
      let more : 10000 ≤ d * 2 = ground (arith, t) in
      rw (t, power_twice n)
        (omega (arith, more, twice d (2 ^ n), le_mul (d * 2) (2 ^ n) (power_positive n)))
  | inr t ↦
      let less : d * 2 ≤ 10000 = ground (arith, t) in
      rw (t, power_twice n)
        (doubled_min n (d * 2) less ∙ ap (λ x. min x 10000) (sym (twice d (2 ^ n))))
]

-- The delay before the n-th attempt of a restart is 250 ms doubled n-1 times, and never above 10 s.
backoff_for-min : (n : ℕ) → 1 ≤ n → backoff_for n ≡ min (250 * 2 ^ (n - 1)) 10000
unfolding backoff_for
backoff_for-min n h = doubled_min (n - 1) 250 (omega arith)

abbrev Running : Text → (Hub × Session) × Bool → Type 0
Running target x = x.1 ≡ true → is_some (lookup target x.0.1.streams) ≡ true

some_insert :
    {V : Type 0} (k j : Text) (v : V) (m : Map V)
    → is_some (lookup j m) ≡ true
    → is_some (lookup j (insert k v m)) ≡ true
some_insert k j v m h = elim (Bool-cases (text_eq k j)) [
  | inl t ↦ rw (lookup-insert k j v m, t) refl
  | inr t ↦ rw (lookup-insert k j v m, t) h
]

there : {V : Type 0} (k : Text) (v : V) (m : Map V) → is_some (lookup k (insert k v m)) ≡ true
there k v m = rw (lookup-insert_self k v m) refl

repaint_some :
    (target : Text) (c : Session)
    → is_some (lookup target c.streams) ≡ true
    → is_some (lookup target (request_repaint target c).streams) ≡ true
unfolding request_repaint
repaint_some target c h = elim (Option-cases (lookup target c.streams)) [
  | inl u ↦ rw u h
  | inr (ls, u) ↦ rw u (there target (record ls { need_snap = true }) c.streams)
]

note_attached-streams :
    (target : Text) (g : Geometry) (c : Session) → (note_attached target g c).streams ≡ c.streams
unfolding note_attached
note_attached-streams target g c =
    if_split (λ (x : Session). x.streams ≡ c.streams)
      (c.closed || same_geometry (geometry_at target c.attached) g) (λ _. refl) λ _. refl

join_shared-Running :
    (me target : Text) (ss : SharedStream) (s : Hub × Session)
    → Running target (join_shared me target ss s)
unfolding join_shared
join_shared-Running me target ss s e =
    let c1 : Session = record (s.1) {
      streams =
          insert target (fresh_stream s.0.next (some ss.serial) TerminalMode.observe) s.1.streams;
    } in
    let P = λ (x : Session). is_some (lookup target x.streams) ≡ true in
    repaint_some target (if valid ss.geom then note_attached target ss.geom c1 else c1) (
      if_split P (valid ss.geom)
        (λ _. rw (note_attached-streams target ss.geom c1) (there target _ s.1.streams))
        λ _. there target _ s.1.streams)

attach_shared-Running :
    (up : Upstream) (me target pane : Text) (s : Hub × Session)
    → Running target (attach_shared up me target pane s)
unfolding attach_shared open_shared
attach_shared-Running up me target pane s = elim (Option-cases (lookup target s.0.shared)) [
  | inl u ↦
      rw (attach_shared, u)
        (if_split (Running target) (up.starts s.0.next) (λ _ _. there target _ s.1.streams) λ _. cc)
  | inr (ss, u) ↦ rw (attach_shared, u) (join_shared-Running me target ss s)
]

start_stream-Running :
    (up : Upstream) (me target : Text) (mode : TerminalMode) (s : Hub × Session)
    → Running target (start_stream up me target mode s)
unfolding start_stream attach_shared open_private open_shared join_shared
start_stream-Running up me target mode s =
    if_split (Running target) (is_transcript (mode_of target s.1)) (λ _. cc)
      λ _. elim (Option-cases (up.resolve target)) [
        | inl u ↦ rw u cc
        | inr (pane, u) ↦ rw u (
            if_split (Running target) s.1.closed (λ _. cc)
              λ _.
                if_split (Running target) (is_some (lookup target s.1.streams)) (λ t _. t)
                  λ _.
                    if_split (Running target) (is_shareable mode target s.1)
                      (λ _. attach_shared-Running up me target pane s)
                      λ _.
                        if_split (Running target) (up.starts s.0.next)
                          (λ _ _. there target _ s.1.streams) λ _. cc)
      ]

-- The last that the client was told is that the target is closed.
abbrev pub Told : Text → Session → Type 0
Told target c = (before : List Notice) × (c.notices ≡ snoc before (Notice.closed target))

-- The connection's context is done, or it has no need of a restart: it is closed, or the target is not
-- live, or it has a stream; or the client knows.
abbrev pub Settled : Text → Hub × Session → Type 0
Settled target s = (s.1.cancelled ≡ true) ⊎ ((is_moot target s.1 ≡ true) ⊎ Told target s.1)

-- After an attempt the loop goes on, or there is no more to do.
attempt-Settled :
    (up : Upstream) (me target : Text) (n : ℕ) (s : Hub × Session)
    → (attempt up me target n s).1 ≡ false
    → Settled target (attempt up me target n s).0
unfolding attempt
attempt-Settled up me target n s =
    let s0 : Hub × Session =
      (s.0, record (s.1) { restart_count = insert target n s.1.restart_count }) in
    let x = start_stream up me target TerminalMode.observe s0 in
    let P = λ (y : (Hub × Session) × Bool). y.1 ≡ false → Settled target y.0 in
    if_split P (s.1.cancelled || is_moot target s.1)
      (λ t _. moot s.1.cancelled (is_moot target s.1) t)
      λ _.
        if_split P x.1
          (λ t _. inr (
            inl (
              running (request_repaint target (notify (Notice.gap target) x.0.1)) (
                repaint_some target (notify (Notice.gap target) x.0.1)
                  (start_stream-Running up me target TerminalMode.observe s0 t)))))
          λ t. cc
  where
    moot : (b m : Bool) → b || m ≡ true → (b ≡ true) ⊎ ((m ≡ true) ⊎ Told target s.1)
    moot true m e = inl refl
    moot false m e = inr (inl e)

    last_of : (b m : Bool) → b || (m || true) ≡ true
    last_of true m = refl
    last_of false true = refl
    last_of false false = refl

    running : (c : Session) → is_some (lookup target c.streams) ≡ true → is_moot target c ≡ true
    running c e = rw e (last_of c.closed (not (is_live (mode_of target c))))

attempts-Settled :
    (up : Upstream) (me target : Text) (meanwhile : ℕ → Hub × Session → Hub × Session) (left n : ℕ)
    (s : Hub × Session)
    → Settled target (attempts up me target meanwhile left n s)
unfolding attempts
attempts-Settled up me target meanwhile zero n s = inr (inr (s.1.notices, refl))
attempts-Settled up me target meanwhile (suc left) n s =
    let x = attempt up me target n (meanwhile n s) in
    if_split (Settled target) x.1 (λ _. attempts-Settled up me target meanwhile left (n + 1) x.0)
      λ t. attempt-Settled up me target n (meanwhile n s) t

begin_restart-none :
    (target : Text) (c : Session)
    → begin_restart target c ≡ none
    → (is_moot target c ≡ true) ⊎ (is_restarting target c ≡ true)
unfolding begin_restart
begin_restart-none target c = refused (is_moot target c) (is_restarting target c)
  where
    refused :
        (m r : Bool)
        → (if m || r
            then none
            else some (record c { restarting = insert target true c.restarting }))
          ≡ none
        → (m ≡ true) ⊎ (r ≡ true)
    refused true r e = inl refl
    refused false true e = inr refl
    refused false false e = absurd (cc (e))

-- The loop of a supervision ends, whatever happens while it sleeps, and then the target has a stream,
-- or is not live, or the connection is closed or cancelled, or the last that the client was told is
-- that the target is closed. The exception is a target that an earlier supervision has not yet let go
-- of: there nothing is done and nothing is told.
pub supervise_restart-Settled :
    (up : Upstream) (me target : Text) (meanwhile : ℕ → Hub × Session → Hub × Session) (h : Hub)
    (c : Session)
    → Settled target (supervise_restart up me target meanwhile (h, c))
      ⊎ ((is_restarting target c ≡ true)
          × (supervise_restart up me target meanwhile (h, c) ≡ (h, c)))
unfolding supervise_restart
supervise_restart-Settled up me target meanwhile h c =
    elim (Option-cases (begin_restart target c)) [
      | inl u ↦
          rw (supervise_restart, u)
            (elim (begin_restart-none target c u) [
              | inl m ↦ inl (inr (inl m))
              | inr r ↦ inr (r, refl)
            ])
      | inr (c1, u) ↦
          rw (supervise_restart, u)
            (inl (
              attempts-Settled up me target meanwhile
                (max_restarts - or_zero (lookup target c.restart_count))
                (or_zero (lookup target c.restart_count) + 1) (h, c1)))
    ]
