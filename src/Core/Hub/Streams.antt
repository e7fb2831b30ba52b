-- ===== src/Core/Hub/Streams.antt =====
-- The operations of internal/core/hub.go's `Session` that a client's messages and its streams call.
use herdr_expose.Prelude.{ℕ, Bool, true, false, not, ◌&&◌, none, some, List, [], ◌∷◌}
use herdr_expose.Prelude.Tests.{◌==◌, if◌then◌else◌, is_some}
use herdr_expose.Prelude.Lists.{is_empty}
use herdr_expose.Prelude.Text.{Text, text_eq}
use herdr_expose.Prelude.Map.{Map, keys, lookup, insert, delete}
use herdr_expose.Core.Viewport.{
  Mode, Geometry, is_transcript, is_live, clamp, valid, same_geometry, parse_mode, mode_name,
  transcript_level, waits_for_settle,
}
use herdr_expose.Core.Pollers.{unsubscribe, unsubscribe_all}
use herdr_expose.Core.Summary.{subscribe}
use herdr_expose.Core.Transcript.{subscribe_transcript}
use herdr_expose.Core.Target.{session_of}
use herdr_expose.Core.Hub.{
  TerminalMode, is_control, LiveStream, Hub, Upcall, Session, Upstream, mode_of, geometry_at,
  is_explicit, call, note_attached, request_repaint, leave, stop_stream, start_stream,
}

-- A stream is started again where the target is live still.
unfoldable pub restart_live : Upstream → Text → Text → Hub × Session → Hub × Session
unfolding stop_stream start_stream
restart_live up me target s =
    let t = stop_stream me target s in
    if not t.1.closed && is_live (mode_of target t.1)
    then (start_stream up me target TerminalMode.observe t).0
    else t

-- `resized` is whether a control stream takes the size.
unfoldable pub set_geometry :
    Upstream → Bool → Text → Text → Geometry → Hub × Session → Hub × Session
unfolding restart_live
set_geometry up resized me target size (h, c) =
    let g = clamp size in
    let was = is_explicit target c in
    let before = geometry_at target c.geom in
    let c1 = record c { geom = insert target g c.geom; explicit = insert target true c.explicit } in
    elim (lookup target c.streams) [
      | none ↦ (h, c1)
      | some ls ↦
          if was && same_geometry before g
          then (h, c1)
          else if is_control ls.mode && resized
          then (h, call (Upcall.resize target g) c1)
          else restart_live up me target (h, c1)
    ]

unfoldable pub match_pane : Upstream → Text → Text → Hub × Session → Hub × Session
unfolding restart_live
match_pane up me target (h, c) =
    let c1 = record c { explicit = delete target c.explicit; geom = delete target c.geom } in
    if is_explicit target c && (is_some (lookup target c.streams) && is_live (mode_of target c))
    then restart_live up me target (h, c1)
    else (h, c1)

unfoldable pub focused_session : Text → Session → Text
focused_session default c =
    if is_empty (session_of c.last_live) then default else session_of c.last_live

abbrev pub needs_reconcile : Text → Mode → Session → Bool
needs_reconcile target mode c = is_live mode && not (is_some (lookup target c.streams))

abbrev pub no_summary : Text → Text → Hub → Hub
no_summary me target h = record h { summary = unsubscribe target me h.summary }

abbrev pub no_transcript : Text → Text → Hub → Hub
no_transcript me target h = record h { transcript = unsubscribe target me h.transcript }

abbrev pub granted : Text → (Hub × Session) × Bool → Hub × Session
granted target (s, false) = s
granted target ((h, c), true) = (h, record c { last_live = target })

abbrev pub read_transcript : Text → Text → Mode → Hub × Session → Hub × Session
read_transcript me target mode (h, c) =
    let h1 = no_summary me target h in
    (
      record h1 {
        transcript =
            subscribe_transcript target me (transcript_level mode) (waits_for_settle mode)
              h1.transcript;
      },
      c,
    )

-- One target of `SetViewport`, by its new mode.
unfoldable pub show : Upstream → Text → Text → Mode → Hub × Session → Hub × Session
unfolding start_stream stop_stream
show up me target Mode.live (h, c) = granted target (
    start_stream up me target TerminalMode.observe
      (no_summary me target (no_transcript me target h), c))
show up me target Mode.summary (h, c) =
    let (h1, c1) = stop_stream me target (no_transcript me target h, c) in
    (record h1 { summary = subscribe target me h1.summary }, c1)
show up me target Mode.hidden (h, c) =
    let (h1, c1) = stop_stream me target (h, c) in
    (no_transcript me target (no_summary me target h1), c1)
show up me target mode (h, c) = read_transcript me target mode (stop_stream me target (h, c))

-- The target was shown in this mode before.
abbrev pub was_shown : Text → Mode → Map Mode → Bool
was_shown target mode old = elim (lookup target old) [
  | none ↦ false
  | some m ↦ text_eq (mode_name m) (mode_name mode)
]

-- The first loop of `SetViewport`, over the declared targets in the order of the map's walk.
unfoldable pub show_all : Upstream → Text → Map Mode → Map Mode → Hub × Session → Hub × Session
unfolding show
show_all up me old [] s = s
show_all up me old ((target, mode) ∷ want) s =
    if was_shown target mode old && not (needs_reconcile target mode s.1)
    then show_all up me old want s
    else show_all up me old want (show up me target mode s)

-- The second loop, over the targets that were shown before and are declared no longer.
unfoldable pub hide_all : Upstream → Text → Map Mode → List Text → Hub × Session → Hub × Session
unfolding show
hide_all up me want [] s = s
hide_all up me want (target ∷ targets) s =
    if is_some (lookup target want)
    then hide_all up me want targets s
    else hide_all up me want targets (show up me target Mode.hidden s)

unfoldable pub parsed : Map Text → Map Mode
parsed [] = []
parsed ((target, m) ∷ decl) = insert target (parse_mode m) (parsed decl)

unfoldable pub set_viewport : Upstream → Text → Map Text → Hub × Session → Hub × Session
unfolding parsed show_all hide_all
set_viewport up me decl (h, c) =
    let want = parsed decl in
    hide_all up me want (keys c.modes) (show_all up me c.modes want (h, record c { modes = want }))

-- A control stream is taken where the connection has none.
unfoldable pub ensure_control : Upstream → Text → Text → Hub × Session → (Hub × Session) × Bool
unfolding stop_stream start_stream
ensure_control up me target (h, c) =
    let taken : Bool = elim (lookup target c.streams) [
      | none ↦ false
      | some ls ↦ is_control ls.mode
    ] in
    if taken
    then ((h, c), true)
    else start_stream up me target TerminalMode.control (stop_stream me target (h, c))

abbrev pub typed : Text → Text → (Hub × Session) × Bool → (Hub × Session) × Bool
typed target data_ (s, false) = (s, false)
typed target data_ ((h, c), true) = ((h, call (Upcall.input target data_) c), true)

unfoldable pub input : Upstream → Text → Text → Text → Hub × Session → (Hub × Session) × Bool
unfolding ensure_control
input up me target data_ (h, c) =
    if is_transcript (mode_of target c)
    then ((h, c), false)
    else typed target data_ (ensure_control up me target (h, c))

-- Only a connection with a control stream may move the pane's own scrollback.
unfoldable pub scroll : Text → ℕ → Session → Session × Bool
scroll target delta c = elim (lookup target c.streams) [
  | none ↦ (c, true)
  | some ls ↦ if is_control ls.mode then (call (Upcall.scroll target delta) c, true) else (c, false)
]

unfoldable pub repaint : Text → Session → Session
unfolding request_repaint
repaint target c =
    if is_live (mode_of target c) && not c.closed then request_repaint target c else c

unfoldable pub leave_all : Text → Map LiveStream → Hub → Hub
leave_all me [] h = h
leave_all me ((target, ls) ∷ streams) h = leave_all me streams (leave me target ls h)

unfoldable pub close : Text → Hub × Session → Hub × Session
unfolding leave_all
close me (h, c) =
    if c.closed
    then (h, c)
    else let h1 = leave_all me c.streams h in
      (
        record h1 {
          summary = unsubscribe_all me h1.summary;
          transcript = unsubscribe_all me h1.transcript;
        },
        record c { closed = true; streams = [] },
      )

-- A frame of the connection's stream of this serial, with the size it was rendered at: what it tells of
-- the size, and whether it goes out as a snapshot.
unfoldable pub take_frame : Text → ℕ → Bool → Geometry → Session → Session × Bool
unfolding note_attached
take_frame target serial full g c =
    let c1 = if valid g then note_attached target g c else c in
    elim (lookup target c1.streams) [
      | none ↦ (c1, false)
      | some ls ↦
          if ls.serial == serial && (full && ls.need_snap)
          then (
            record c1 { streams = insert target (record ls { need_snap = false }) c1.streams },
            true,
          )
          else (c1, false)
    ]
