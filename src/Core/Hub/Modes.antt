-- ===== src/Core/Hub/Modes.antt =====
-- The streams of a connection in internal/core/hub.go come and go without changing its modes.
use herdr_expose.Prelude.{◌≡◌, refl, ◌∙◌, inl, inr, Bool, true, false, not, ◌&&◌, List, [], ◌∷◌}
use herdr_expose.Prelude.Tests.{if_split, Option-cases, is_some}
use herdr_expose.Prelude.Text.{Text}
use herdr_expose.Prelude.Map.{Map, lookup}
use herdr_expose.Core.Viewport.{Mode, Geometry, is_transcript, valid}
use herdr_expose.Core.Hub.{
  TerminalMode, SharedStream, Hub, Session, Upstream, mode_of, note_attached, request_repaint,
  stop_stream, start_stream, attach_shared, open_shared, open_private, join_shared, is_shareable,
}
use herdr_expose.Core.Hub.Streams.{show, show_all, hide_all, was_shown, needs_reconcile, granted}

abbrev pub Same : Map Mode → Hub × Session → Type 0
Same ms x = x.1.modes ≡ ms

pub repaint-modes : (target : Text) (c : Session) → (request_repaint target c).modes ≡ c.modes
unfolding request_repaint
repaint-modes target c = elim (Option-cases (lookup target c.streams)) [
  | inl u ↦ rw u refl
  | inr (ls, u) ↦ rw u refl
]

pub note_attached-modes :
    (target : Text) (g : Geometry) (c : Session) → (note_attached target g c).modes ≡ c.modes
unfolding note_attached
note_attached-modes target g c =
    if_split (λ (x : Session). x.modes ≡ c.modes) _ (λ _. refl) λ _. refl

pub stop-modes : (me target : Text) (s : Hub × Session) → Same s.1.modes (stop_stream me target s)
unfolding stop_stream
stop-modes me target s = elim (Option-cases (lookup target s.1.streams)) [
  | inl u ↦ rw (stop_stream, u) refl
  | inr (ls, u) ↦ rw (stop_stream, u) refl
]

open-modes :
    (up : Upstream) (me target pane : Text) (mode : TerminalMode) (s : Hub × Session)
    → Same s.1.modes (open_shared up me target pane s).0
      × Same s.1.modes (open_private up target pane mode s).0
unfolding open_shared open_private
open-modes up me target pane mode s =
    let P = λ (x : (Hub × Session) × Bool). Same s.1.modes x.0 in
    (
      if_split P (up.starts s.0.next) (λ _. refl) λ _. refl,
      if_split P (up.starts s.0.next) (λ _. refl) λ _. refl,
    )

join-modes :
    (me target : Text) (ss : SharedStream) (s : Hub × Session)
    → Same s.1.modes (join_shared me target ss s).0
unfolding join_shared
join-modes me target ss s =
    repaint-modes target _
    ∙ if_split (λ (x : Session). x.modes ≡ s.1.modes) (valid ss.geom)
        (λ _. note_attached-modes target ss.geom _) λ _. refl

attach-modes :
    (up : Upstream) (me target pane : Text) (s : Hub × Session)
    → Same s.1.modes (attach_shared up me target pane s).0
unfolding attach_shared
attach-modes up me target pane s = elim (Option-cases (lookup target s.0.shared)) [
  | inl u ↦ rw (attach_shared, u) (open-modes up me target pane TerminalMode.observe s).0
  | inr (ss, u) ↦ rw (attach_shared, u) (join-modes me target ss s)
]

pub start-modes :
    (up : Upstream) (me target : Text) (mode : TerminalMode) (s : Hub × Session)
    → Same s.1.modes (start_stream up me target mode s).0
unfolding start_stream
start-modes up me target mode s =
    let P = λ (x : (Hub × Session) × Bool). Same s.1.modes x.0 in
    if_split P (is_transcript (mode_of target s.1)) (λ _. refl)
      λ _. elim (Option-cases (up.resolve target)) [
        | inl u ↦ rw u refl
        | inr (pane, u) ↦ rw u (
            if_split P s.1.closed (λ _. refl)
              λ _.
                if_split P (is_some (lookup target s.1.streams)) (λ _. refl)
                  λ _.
                    if_split P (is_shareable mode target s.1)
                      (λ _. attach-modes up me target pane s)
                      λ _. (open-modes up me target pane mode s).1)
      ]

granted-modes :
    (ms : Map Mode) (target : Text) (x : (Hub × Session) × Bool)
    → Same ms x.0
    → Same ms (granted target x)
granted-modes ms target (s, false) b = b
granted-modes ms target ((h, d), true) b = b

pub show-modes :
    (up : Upstream) (me target : Text) (mode : Mode) (s : Hub × Session)
    → Same s.1.modes (show up me target mode s)
unfolding show
show-modes up me target Mode.live s =
    granted-modes s.1.modes target _ (start-modes up me target TerminalMode.observe (_, s.1))
show-modes up me target Mode.summary s = stop-modes me target (_, s.1)
show-modes up me target Mode.hidden s = stop-modes me target s
show-modes up me target Mode.transcript s = stop-modes me target s
show-modes up me target Mode.transcript_clean s = stop-modes me target s
show-modes up me target Mode.transcript_prose s = stop-modes me target s
show-modes up me target Mode.transcript_settled s = stop-modes me target s

pub show_all-modes :
    (up : Upstream) (me : Text) (old want : Map Mode) (s : Hub × Session)
    → Same s.1.modes (show_all up me old want s)
unfolding show_all
show_all-modes up me old [] s = refl
show_all-modes up me old ((target, mode) ∷ want) s =
    if_split (Same s.1.modes) (was_shown target mode old && not (needs_reconcile target mode s.1))
      (λ _. show_all-modes up me old want s)
      λ _. show_all-modes up me old want (show up me target mode s) ∙ show-modes up me target mode s

pub hide_all-modes :
    (up : Upstream) (me : Text) (want : Map Mode) (targets : List Text) (s : Hub × Session)
    → Same s.1.modes (hide_all up me want targets s)
unfolding hide_all
hide_all-modes up me want [] s = refl
hide_all-modes up me want (target ∷ targets) s =
    if_split (Same s.1.modes) (is_some (lookup target want))
      (λ _. hide_all-modes up me want targets s)
      λ _.
        hide_all-modes up me want targets (show up me target Mode.hidden s)
        ∙ show-modes up me target Mode.hidden s
