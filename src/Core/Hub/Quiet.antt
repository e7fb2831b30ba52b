-- ===== src/Core/Hub/Quiet.antt =====
-- internal/core/hub.go: a connection has no terminal stream on a target that it reads as a transcript.
use herdr_expose.Prelude.{
  ℕ, ◌≡◌, refl, sym, ap, ◌∙◌, ◌⊎◌, inl, inr, Bool, true, false, not, ◌&&◌, ◌||◌, none, some, List,
  [], ◌∷◌,
}
use herdr_expose.Prelude.Tests.{if_split, ◌==◌, if◌then◌else◌, Bool-cases, Option-cases, is_some}
use herdr_expose.Prelude.Text.{Text, text_eq}
use herdr_expose.Prelude.Map.{Map, keys, lookup, insert, delete}
use herdr_expose.Core.Viewport.{
  clamp, same_geometry, Mode, Geometry, is_transcript, is_live, valid, mode_name,
}
use herdr_expose.Core.Hub.{
  notify, TerminalMode, Hub, Session, Upstream, Notice, mode_of, geometry_at, is_explicit,
  is_control, note_attached, request_repaint, stop_stream, start_stream,
}
use herdr_expose.Core.Hub.Modes.{
  start-modes, stop-modes, repaint-modes, note_attached-modes, show_all-modes, hide_all-modes,
}
use herdr_expose.Core.Hub.Steps.{Op, apply, run}
use herdr_expose.Core.Hub.Restarts.{on_closed, attempt, is_moot}
use herdr_expose.Core.Hub.Streams.{
  restart_live, set_geometry, match_pane, show_all, hide_all, parsed, set_viewport, was_shown,
  ensure_control, input, scroll, repaint, close, take_frame, typed,
}
use herdr_expose.Core.Hub.Bare.{
  none-delete, none_update, Bare, request_repaint-Bare, note_attached-Bare, stop_stream-Bare,
  start_stream-Bare, mode_same, restart_live-Bare,
}
use herdr_expose.Core.Hub.Shown.{hide_all-Bare, same_mode, Due, show_all-Bare}

-- No stream on any target that is read as a transcript.
abbrev pub Quiet : Session → Type 0
Quiet c = (t : Text) → is_transcript (mode_of t c) ≡ true → lookup t c.streams ≡ none

bare_or_Due :
    (t : Text) (c : Session) (want : Map Mode)
    → Quiet c
    → is_transcript (elim (lookup t want) [ none ↦ Mode.hidden | some m ↦ m ]) ≡ true
    → (lookup t c.streams ≡ none) ⊎ Due t c.modes want
bare_or_Due t c want q ht = elim (Option-cases (lookup t want)) [
  | inl u ↦ absurd (cc (rw u at ht))
  | inr (m, u) ↦
      let tm : is_transcript m ≡ true = rw u at ht in
      elim (Option-cases (lookup t c.modes)) [
        | inl v ↦ inr (m, u, tm, rw (was_shown, v) refl)
        | inr (m0, v) ↦ elim (Bool-cases (text_eq (mode_name m0) (mode_name m))) [
          | inl w ↦ inl (q t (rw (mode_of, v, same_mode t m0 m w) tm))
          | inr w ↦ inr (m, u, tm, rw (was_shown, v) w)
        ]
      ]
]

set_viewport-Quiet :
    (up : Upstream) (me : Text) (decl : Map Text) (h : Hub) (c : Session)
    → Quiet c
    → Quiet (set_viewport up me decl (h, c)).1
unfolding set_viewport
set_viewport-Quiet up me decl h c q t ht =
    let want = parsed decl in
    let s : Hub × Session = (h, record c { modes = want }) in
    let s1 = show_all up me c.modes want s in
    let back : (hide_all up me want (keys c.modes) s1).1.modes ≡ want =
      hide_all-modes up me want (keys c.modes) s1 ∙ show_all-modes up me c.modes want s in
    let ht0 : is_transcript (mode_of t s.1) ≡ true =
      sym (ap is_transcript (mode_same t s.1 (hide_all up me want (keys c.modes) s1).1 back))
      ∙ ht in
    let (e1, m1) = show_all-Bare t up me c.modes want s ht0 (bare_or_Due t c want q ht0) in
    (hide_all-Bare t up me want (keys c.modes) s1 (ap is_transcript (mode_same t s.1 s1.1 m1) ∙ ht0)
      e1).0

abbrev QuietAfter : Hub × Session → Type 0
QuietAfter x = Quiet x.1

-- An operation that leaves the modes and adds no stream to a transcript keeps the property.
Bare-Quiet :
    (c : Session) (x : Hub × Session)
    → Quiet c
    → ((t : Text) → is_transcript (mode_of t c) ≡ true → lookup t c.streams ≡ none → Bare t c x)
    → x.1.modes ≡ c.modes
    → Quiet x.1
Bare-Quiet c x q k m t ht =
    let ht0 : is_transcript (mode_of t c) ≡ true =
      sym (ap is_transcript (mode_same t c x.1 m)) ∙ ht in
    (k t ht0 (q t ht0)).0

restart-modes :
    (up : Upstream) (me target : Text) (s : Hub × Session)
    → (restart_live up me target s).1.modes ≡ s.1.modes
unfolding restart_live
restart-modes up me target s =
    let x = stop_stream me target s in
    if_split (λ (y : Hub × Session). y.1.modes ≡ s.1.modes)
      (not x.1.closed && is_live (mode_of target x.1))
      (λ _. start-modes up me target TerminalMode.observe x ∙ stop-modes me target s)
      λ _. stop-modes me target s

restart-Quiet :
    (up : Upstream) (me target : Text) (s : Hub × Session)
    → Quiet s.1
    → Quiet (restart_live up me target s).1
restart-Quiet up me target s q =
    Bare-Quiet s.1 (restart_live up me target s) q
      (λ t ht e. restart_live-Bare t up me target s.0 s.1 ht e) (restart-modes up me target s)

start-Quiet :
    (up : Upstream) (me target : Text) (mode : TerminalMode) (s : Hub × Session)
    → Quiet s.1
    → Quiet (start_stream up me target mode s).0.1
start-Quiet up me target mode s q =
    Bare-Quiet s.1 (start_stream up me target mode s).0 q
      (λ t ht e. start_stream-Bare t up me target mode s.0 s.1 ht e)
      (start-modes up me target mode s)

stop-Quiet : (me target : Text) (s : Hub × Session) → Quiet s.1 → Quiet (stop_stream me target s).1
stop-Quiet me target s q =
    Bare-Quiet s.1 (stop_stream me target s) q (λ t ht e. stop_stream-Bare t me target s.0 s.1 e)
      (stop-modes me target s)

repaint-Quiet : (target : Text) (h : Hub) (c : Session) → Quiet c → Quiet (request_repaint target c)
repaint-Quiet target h c q =
    Bare-Quiet c (h, request_repaint target c) q (λ t ht e. request_repaint-Bare t target h c e)
      (repaint-modes target c)

attached-Quiet :
    (target : Text) (g : Geometry) (h : Hub) (c : Session)
    → Quiet c
    → Quiet (note_attached target g c)
attached-Quiet target g h c q =
    Bare-Quiet c (h, note_attached target g c) q (λ t ht e. note_attached-Bare t target g h c e)
      (note_attached-modes target g c)

set_geometry-Quiet :
    (up : Upstream) (resized : Bool) (me target : Text) (g : Geometry) (s : Hub × Session)
    → Quiet s.1
    → Quiet (set_geometry up resized me target g s).1
unfolding set_geometry
set_geometry-Quiet up resized me target g s q = elim (Option-cases (lookup target s.1.streams)) [
  | inl u ↦ rw (set_geometry, u) q
  | inr (ls, u) ↦
      let c1 : Session = record (s.1) {
        geom = insert target (clamp g) s.1.geom;
        explicit = insert target true s.1.explicit;
      } in
      rw (set_geometry, u)
        (if_split QuietAfter
          (is_explicit target s.1 && same_geometry (geometry_at target s.1.geom) (clamp g)) (λ _. q)
          λ _.
            if_split QuietAfter (is_control ls.mode && resized) (λ _. q)
              λ _. restart-Quiet up me target (s.0, c1) q)
]

match_pane-Quiet :
    (up : Upstream) (me target : Text) (s : Hub × Session)
    → Quiet s.1
    → Quiet (match_pane up me target s).1
unfolding match_pane
match_pane-Quiet up me target s q =
    let c1 : Session = record (s.1) {
      explicit = delete target s.1.explicit;
      geom = delete target s.1.geom;
    } in
    if_split QuietAfter
      (is_explicit target s.1
        && (is_some (lookup target s.1.streams) && is_live (mode_of target s.1)))
      (λ _. restart-Quiet up me target (s.0, c1) q) λ _. q

typed-Quiet :
    (up : Upstream) (me target keys_ : Text) (s : Hub × Session)
    → Quiet s.1
    → Quiet (input up me target keys_ s).0.1
unfolding input ensure_control
typed-Quiet up me target keys_ s q =
    if_split (λ (x : (Hub × Session) × Bool). Quiet x.0.1) (is_transcript (mode_of target s.1))
      (λ _. q) λ _. sent (ensure_control up me target s) controlled
  where
    sent : (x : (Hub × Session) × Bool) → Quiet x.0.1 → Quiet (typed target keys_ x).0.1
    sent (y, false) r = r
    sent ((h, c), true) r = r

    controlled : Quiet (ensure_control up me target s).0.1
    controlled =
        if_split (λ (x : (Hub × Session) × Bool). Quiet x.0.1)
          (elim (lookup target s.1.streams) [ none ↦ false | some ls ↦ is_control ls.mode ])
          (λ _. q)
          λ _.
            start-Quiet up me target TerminalMode.control (stop_stream me target s)
              (stop-Quiet me target s q)

frame-Quiet :
    (target : Text) (serial : ℕ) (full : Bool) (g : Geometry) (h : Hub) (c : Session)
    → Quiet c
    → Quiet (take_frame target serial full g c).0
unfolding take_frame
frame-Quiet target serial full g h c q =
    let c1 = if valid g then note_attached target g c else c in
    let q1 : Quiet c1 = if_split Quiet (valid g) (λ _. attached-Quiet target g h c q) (λ _. q) in
    elim (Option-cases (lookup target c1.streams)) [
      | inl u ↦ rw (take_frame, u) q1
      | inr (ls, u) ↦
          rw (take_frame, u)
            (if_split (λ (x : Session × Bool). Quiet x.0)
              (ls.serial == serial && (full && ls.need_snap))
              (λ _ t ht.
                none_update target t (record ls { need_snap = false }) ls c1.streams u (q1 t ht))
              λ _. q1)
    ]

close-Quiet : (me : Text) (s : Hub × Session) → Quiet s.1 → Quiet (close me s).1
unfolding close lookup
close-Quiet me s q = if_split QuietAfter s.1.closed (λ _. q) λ _ t ht. refl

closed-Quiet :
    (target : Text) (serial : ℕ) (c : Session) → Quiet c → Quiet (on_closed target serial c).0
unfolding on_closed
closed-Quiet target serial c q =
    let own : Bool = elim (lookup target c.streams) [
      | none ↦ false
      | some ls ↦ ls.serial == serial
    ] in
    let c1 : Session = if own then record c { streams = delete target c.streams } else c in
    let q1 : Quiet c1 =
      if_split Quiet own (λ _ t ht. none-delete target t c.streams (q t ht)) (λ _. q) in
    if_split (λ (x : Session × Bool). Quiet x.0) c1.closed (λ _. q1)
      λ _.
        if_split (λ (x : Session × Bool). Quiet x.0) (is_live (mode_of target c1)) (λ _. q1) λ _. q1

attempt-Quiet :
    (up : Upstream) (me target : Text) (n : ℕ) (s : Hub × Session)
    → Quiet s.1
    → Quiet (attempt up me target n s).0.1
unfolding attempt
attempt-Quiet up me target n s q =
    let s0 : Hub × Session =
      (s.0, record (s.1) { restart_count = insert target n s.1.restart_count }) in
    let x = start_stream up me target TerminalMode.observe s0 in
    let qx = start-Quiet up me target TerminalMode.observe s0 q in
    let P = λ (y : (Hub × Session) × Bool). Quiet y.0.1 in
    if_split P (s.1.cancelled || is_moot target s.1) (λ _. q)
      λ _.
        if_split P x.1 (λ _. repaint-Quiet target x.0.0 (notify (Notice.gap target) x.0.1) qx)
          λ _. qx

apply-Quiet :
    (up : Upstream) (me : Text) (op : Op) (s : Hub × Session)
    → Quiet s.1
    → Quiet (apply up me op s).1
unfolding apply scroll repaint
apply-Quiet up me (Op.shown decl) s q = set_viewport-Quiet up me decl s.0 s.1 q
apply-Quiet up me (Op.sized resized target g) s q = set_geometry-Quiet up resized me target g s q
apply-Quiet up me (Op.matched target) s q = match_pane-Quiet up me target s q
apply-Quiet up me (Op.typed target keys_) s q = typed-Quiet up me target keys_ s q
apply-Quiet up me (Op.scrolled target delta) s q = elim (Option-cases (lookup target s.1.streams)) [
  | inl u ↦ rw (scroll, u) q
  | inr (ls, u) ↦
      rw (scroll, u)
        (if_split (λ (x : Session × Bool). Quiet x.0) (is_control ls.mode) (λ _. q) λ _. q)
]
apply-Quiet up me (Op.repainted target) s q =
    if_split Quiet (is_live (mode_of target s.1) && not s.1.closed)
      (λ _. repaint-Quiet target s.0 s.1 q) λ _. q
apply-Quiet up me (Op.framed target serial full g) s q = frame-Quiet target serial full g s.0 s.1 q
apply-Quiet up me (Op.died target serial) s q = closed-Quiet target serial s.1 q
apply-Quiet up me (Op.restarted target n) s q = attempt-Quiet up me target n s q
apply-Quiet up me Op.shut s q = close-Quiet me s q
apply-Quiet up me (Op.elsewhere h) s q = q

-- Whatever its client sends, whatever becomes of its streams and whatever other connections do, a
-- connection that starts without a stream never has one on a target that it reads as a transcript.
pub run-Quiet :
    (up : Upstream) (me : Text) (ops : List Op) (s : Hub × Session)
    → Quiet s.1
    → Quiet (run up me ops s).1
unfolding run
run-Quiet up me [] s q = q
run-Quiet up me (op ∷ ops) s q = run-Quiet up me ops (apply up me op s) (apply-Quiet up me op s q)
