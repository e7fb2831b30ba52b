-- ===== src/Core/Hub/Looking.antt =====
-- internal/core/hub.go: a connection that only looks touches nothing upstream.
use herdr_expose.Prelude.{
  ℕ, refl, ap, inl, inr, Bool, true, false, not, ◌&&◌, ◌||◌, none, some, List, [], ◌∷◌,
}
use herdr_expose.Prelude.Tests.{if_split, ◌==◌, if◌then◌else◌, Option-cases, is_some}
use herdr_expose.Prelude.Lists.{All}
use herdr_expose.Prelude.Text.{Text}
use herdr_expose.Prelude.Map.{
  insert-Each, delete-Each, lookup-Each, Map, keys, lookup, insert, delete,
}
use herdr_expose.Core.Viewport.{Mode, Geometry, is_live, valid}
use herdr_expose.Core.Hub.{
  TerminalMode, Hub, Session, Upstream, Notice, new_session, mode_of, is_explicit, notify,
  note_attached, stop_stream, start_stream,
}
use herdr_expose.Core.Hub.Steps.{Op, apply, run}
use herdr_expose.Core.Hub.Restarts.{on_closed, attempt, is_moot}
use herdr_expose.Core.Hub.Streams.{
  restart_live, match_pane, show, show_all, hide_all, parsed, set_viewport, was_shown,
  needs_reconcile, scroll, repaint, close, take_frame, granted,
}
use herdr_expose.Core.Hub.Modest.{
  Harmless, Modest, ModestAfter, ModestResult, Observer, note_attached-Modest,
  request_repaint-Modest, start_stream-Modest, stop_stream-Modest,
}

-- An operation that looks: not a size, not a key.
abbrev pub Looks : Op → Type 0
Looks (Op.sized resized target g) = ⊥
Looks (Op.typed target keys_) = ⊥
Looks _ = Unit {0}

restart_live-Modest :
    (up : Upstream) (me target : Text) (s : Hub × Session)
    → Modest s.1
    → Modest (restart_live up me target s).1
unfolding restart_live
restart_live-Modest up me target s q =
    let x = stop_stream me target s in
    let qx = stop_stream-Modest me target s q in
    if_split ModestAfter (not x.1.closed && is_live (mode_of target x.1))
      (λ _. start_stream-Modest up me target x qx) λ _. qx

granted-Modest :
    (target : Text) (x : (Hub × Session) × Bool) → Modest x.0.1 → Modest (granted target x).1
granted-Modest target (s, false) q = q
granted-Modest target ((h, d), true) q = q

show-Modest :
    (up : Upstream) (me target : Text) (mode : Mode) (s : Hub × Session)
    → Modest s.1
    → Modest (show up me target mode s).1
unfolding show
show-Modest up me target Mode.live s q =
    granted-Modest target _ (start_stream-Modest up me target (_, s.1) q)
show-Modest up me target Mode.summary s q = stop_stream-Modest me target (_, s.1) q
show-Modest up me target Mode.hidden s q = stop_stream-Modest me target s q
show-Modest up me target Mode.transcript s q = stop_stream-Modest me target s q
show-Modest up me target Mode.transcript_clean s q = stop_stream-Modest me target s q
show-Modest up me target Mode.transcript_prose s q = stop_stream-Modest me target s q
show-Modest up me target Mode.transcript_settled s q = stop_stream-Modest me target s q

show_all-Modest :
    (up : Upstream) (me : Text) (old want : Map Mode) (s : Hub × Session)
    → Modest s.1
    → Modest (show_all up me old want s).1
unfolding show_all
show_all-Modest up me old [] s q = q
show_all-Modest up me old ((target, mode) ∷ want) s q =
    if_split ModestAfter (was_shown target mode old && not (needs_reconcile target mode s.1))
      (λ _. show_all-Modest up me old want s q)
      λ _.
        show_all-Modest up me old want (show up me target mode s)
          (show-Modest up me target mode s q)

hide_all-Modest :
    (up : Upstream) (me : Text) (want : Map Mode) (targets : List Text) (s : Hub × Session)
    → Modest s.1
    → Modest (hide_all up me want targets s).1
unfolding hide_all
hide_all-Modest up me want [] s q = q
hide_all-Modest up me want (target ∷ targets) s q =
    if_split ModestAfter (is_some (lookup target want))
      (λ _. hide_all-Modest up me want targets s q)
      λ _.
        hide_all-Modest up me want targets (show up me target Mode.hidden s)
          (show-Modest up me target Mode.hidden s q)

set_viewport-Modest :
    (up : Upstream) (me : Text) (decl : Map Text) (s : Hub × Session)
    → Modest s.1
    → Modest (set_viewport up me decl s).1
unfolding set_viewport
set_viewport-Modest up me decl s q =
    let s0 : Hub × Session = (s.0, record (s.1) { modes = parsed decl }) in
    hide_all-Modest up me (parsed decl) (keys s.1.modes) (show_all up me s.1.modes (parsed decl) s0)
      (show_all-Modest up me s.1.modes (parsed decl) s0 q)

match_pane-Modest :
    (up : Upstream) (me target : Text) (s : Hub × Session)
    → Modest s.1
    → Modest (match_pane up me target s).1
unfolding match_pane delete
match_pane-Modest up me target s (e, a, h) =
    let c1 : Session = record (s.1) {
      explicit = delete target s.1.explicit;
      geom = delete target s.1.geom;
    } in
    let q1 : Modest c1 = (ap (λ (m : Map Bool). delete target m) e, a, h) in
    if_split ModestAfter
      (is_explicit target s.1
        && (is_some (lookup target s.1.streams) && is_live (mode_of target s.1)))
      (λ _. restart_live-Modest up me target (s.0, c1) q1) λ _. q1

scroll-Modest :
    (target : Text) (delta : ℕ) (c : Session) → Modest c → Modest (scroll target delta c).0
unfolding scroll
scroll-Modest target delta c q = elim (Option-cases (lookup target c.streams)) [
  | inl u ↦ rw (scroll, u) q
  | inr (ls, u) ↦ rw (scroll, u, lookup-Each Observer target ls c.streams u q.1) q
]

take_frame-Modest :
    (target : Text) (serial : ℕ) (full : Bool) (g : Geometry) (c : Session)
    → Modest c
    → Modest (take_frame target serial full g c).0
unfolding take_frame
take_frame-Modest target serial full g c q =
    let c1 = if valid g then note_attached target g c else c in
    let (e, a, h) : Modest c1 =
      if_split Modest (valid g) (λ _. note_attached-Modest target g c q) (λ _. q) in
    elim (Option-cases (lookup target c1.streams)) [
      | inl u ↦ rw (take_frame, u) (e, a, h)
      | inr (ls, u) ↦
          rw (take_frame, u)
            (if_split (λ (x : Session × Bool). Modest x.0)
              (ls.serial == serial && (full && ls.need_snap))
              (λ _. (
                e,
                insert-Each Observer target (record ls { need_snap = false }) c1.streams
                    (lookup-Each Observer target ls c1.streams u a) a,
                h,
              ))
              λ _. (e, a, h))
    ]

on_closed-Modest :
    (target : Text) (serial : ℕ) (c : Session) → Modest c → Modest (on_closed target serial c).0
unfolding on_closed
on_closed-Modest target serial c (e, a, h) =
    let own : Bool = elim (lookup target c.streams) [
      | none ↦ false
      | some ls ↦ ls.serial == serial
    ] in
    let c1 : Session = if own then record c { streams = delete target c.streams } else c in
    let q1 : Modest c1 =
      if_split Modest own (λ _. (e, delete-Each Observer target c.streams a, h)) (λ _. (e, a, h)) in
    if_split (λ (x : Session × Bool). Modest x.0) c1.closed (λ _. q1)
      λ _.
        if_split (λ (x : Session × Bool). Modest x.0) (is_live (mode_of target c1)) (λ _. q1)
          λ _. q1

attempt-Modest :
    (up : Upstream) (me target : Text) (n : ℕ) (s : Hub × Session)
    → Modest s.1
    → Modest (attempt up me target n s).0.1
unfolding attempt
attempt-Modest up me target n s q =
    let s0 : Hub × Session =
      (s.0, record (s.1) { restart_count = insert target n s.1.restart_count }) in
    let x = start_stream up me target TerminalMode.observe s0 in
    let qx = start_stream-Modest up me target s0 q in
    if_split ModestResult (s.1.cancelled || is_moot target s.1) (λ _. q)
      λ _.
        if_split ModestResult x.1
          (λ _. request_repaint-Modest target (notify (Notice.gap target) x.0.1) qx) λ _. qx

apply-Modest :
    (up : Upstream) (me : Text) (op : Op) (s : Hub × Session)
    → Looks op
    → Modest s.1
    → Modest (apply up me op s).1
unfolding apply repaint close
apply-Modest up me (Op.shown decl) s l q = set_viewport-Modest up me decl s q
apply-Modest up me (Op.sized resized target g) s l q = elim l [ ]
apply-Modest up me (Op.matched target) s l q = match_pane-Modest up me target s q
apply-Modest up me (Op.typed target keys_) s l q = elim l [ ]
apply-Modest up me (Op.scrolled target delta) s l q = scroll-Modest target delta s.1 q
apply-Modest up me (Op.repainted target) s l q =
    if_split Modest (is_live (mode_of target s.1) && not s.1.closed)
      (λ _. request_repaint-Modest target s.1 q) λ _. q
apply-Modest up me (Op.framed target serial full g) s l q =
    take_frame-Modest target serial full g s.1 q
apply-Modest up me (Op.died target serial) s l q = on_closed-Modest target serial s.1 q
apply-Modest up me (Op.restarted target n) s l q = attempt-Modest up me target n s q
apply-Modest up me Op.shut s l q = if_split ModestAfter s.1.closed (λ _. q) λ _. (q.0, tt, q.2)
apply-Modest up me (Op.elsewhere h) s l q = q

run-Modest :
    (up : Upstream) (me : Text) (ops : List Op) (s : Hub × Session)
    → All Looks ops
    → Modest s.1
    → Modest (run up me ops s).1
unfolding run
run-Modest up me [] s l q = q
run-Modest up me (op ∷ ops) s (l, ls) q =
    run-Modest up me ops (apply up me op s) ls (apply-Modest up me op s l q)

-- Looking does not touch. A connection that declares viewports, takes frames, scrolls, asks for
-- repaints, gives sizes back, loses streams and has them restarted, while others do what they like,
-- but that never sets a size and never types, starts observers only, without a size and without a
-- takeover; it resizes, scrolls and types nothing upstream.
pub looking-Harmless :
    (up : Upstream) (me : Text) (h : Hub) (ops : List Op)
    → All Looks ops
    → All Harmless (run up me ops (h, new_session)).1.calls
looking-Harmless up me h ops l = (run-Modest up me ops (h, new_session) l (refl, tt, tt)).2
