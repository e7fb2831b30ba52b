-- ===== src/Tests/Viewers.antt =====
-- Pollers, the cleaner and the hub at concrete inputs.
use herdr_expose.Prelude.{
  ◌+◌, ℕ, ◌≡◌, refl, ◌⊎◌, Bool, true, false, none, some, List, [], ◌∷◌, ◌++◌,
}
use herdr_expose.Prelude.Tests.{is_some, ◌==◌}
use herdr_expose.Prelude.Lists.{All, length, keep_if, any_of}
use herdr_expose.Prelude.Map.{Map, lookup, insert, delete}
use herdr_expose.Prelude.Text.{Text, bytes, text_eq, split_on, trim_space}
use herdr_expose.Core.Pollers.{unsubscribe}
use herdr_expose.Core.Summary.{SummarySub}
use herdr_expose.Core.Summary.Rounds.{sent_to, sent_to-changes}
use herdr_expose.Core.Transcript.{TranscriptSub, TranscriptPoller}
use herdr_expose.Core.Transcript.Settled.{Poll, picked_for, picked_for-visible}
use herdr_expose.Core.Cleaner.{
  CodeShapes, Patterns, clean, clean_lines, clean_line, flush_code, trim_padding, is_code_like,
}
use herdr_expose.Core.Cleaner.Lines.{clean_faithful, is_text}
use herdr_expose.Core.Cleaner.Folds.{folded-prose, Sub}
use herdr_expose.Core.Viewport.{is_live, no_geometry, parse_mode, Mode, Geometry}
use herdr_expose.Core.Hub.{
  launched, stop_stream, start_stream, attach_shared, open_shared, open_private, join_shared,
  detach, geometry_for, note_attached, request_repaint, Hub, Session, Upstream, Upcall,
  TerminalMode, new_session, Notice, mode_of,
}
use herdr_expose.Core.Hub.Steps.{Op, run, apply}
use herdr_expose.Core.Hub.Streams.{
  set_viewport, parsed, show_all, hide_all, show, set_geometry, match_pane, input, ensure_control,
  restart_live, take_frame,
}
use herdr_expose.Core.Pollers.{unsubscribe_all}
use herdr_expose.Core.Hub.Streams.{close, leave_all}
use herdr_expose.Core.Hub.Entries.{Linked, held}
use herdr_expose.Core.Hub.Linked.{happen_all-Linked}
use herdr_expose.Core.Hub.Rooms.{stream_watched}
use herdr_expose.Core.Hub.Fanout.{World, Event, happen, happen_all, give_all, on_frame}
use herdr_expose.Core.Hub.Quiet.{Quiet, run-Quiet}
use herdr_expose.Core.Hub.Modest.{Harmless}
use herdr_expose.Core.Hub.Looking.{looking-Harmless}
use herdr_expose.Core.Hub.Restarts.{
  supervise_restart, is_restarting, begin_restart, end_restart, on_closed, attempts, attempt,
}
use herdr_expose.Core.Hub.Recovery.{Settled, supervise_restart-Settled}

abbrev tile : Map SummarySub
tile =
    (bytes "phone", record { hash = 4; sent = true })
    ∷ (bytes "laptop", record { hash = 0; sent = false })
    ∷ []

sent_to-changes_example :
    sent_to (bytes "s/p") (bytes "phone") (4 ∷ 4 ∷ 7 ∷ 4 ∷ []) ((bytes "s/p", tile) ∷ [])
    ≡ 7 ∷ 4 ∷ []
unfolding lookup text_eq
sent_to-changes_example =
    sent_to-changes (bytes "s/p") (bytes "phone") (4 ∷ 4 ∷ 7 ∷ 4 ∷ []) ((bytes "s/p", tile) ∷ [])
      tile (record { hash = 4; sent = true }) refl (refl, (refl, tt)) refl

abbrev poll_of : Text → Text → Poll
poll_of text state = (record { raw = text; clean = text; prose = text }, state)

abbrev waiting : TranscriptSub
waiting = record { hash = 0; sent = false; level = 2; settle = true }

abbrev poller : TranscriptPoller
poller = record {
  subs = (bytes "s/p", (bytes "phone", waiting) ∷ []) ∷ [];
  stable = [];
  last_stable = [];
}

-- A screen that is still painted is held, and the one that stays is shown once.
picked_for-visible_example :
    picked_for length
      (bytes "s/p")
      (bytes "phone")
      (poll_of (bytes "a") (bytes "working")
        ∷ poll_of (bytes "abc") (bytes "done")
        ∷ poll_of (bytes "abc") (bytes "done")
        ∷ poll_of (bytes "abc") (bytes "done")
        ∷ [])
      poller
    ≡ 3 ∷ []
unfolding lookup text_eq
picked_for-visible_example =
    picked_for-visible length (bytes "s/p") (bytes "phone")
      (poll_of (bytes "a") (bytes "working")
        ∷ poll_of (bytes "abc") (bytes "done")
        ∷ poll_of (bytes "abc") (bytes "done")
        ∷ poll_of (bytes "abc") (bytes "done")
        ∷ [])
      poller ((bytes "phone", waiting) ∷ []) waiting refl (refl, tt) refl

-- A rule is furniture, and a line with a slash has the shape of code.
abbrev patterns : Patterns
patterns = (λ (l : Text). text_eq l (bytes "---")) ∷ []

abbrev shapes : CodeShapes
shapes = record {
  gutter = λ l. false;
  diff = λ l. false;
  bare = λ l. false;
  shell = λ l. false;
  path = λ (l : Text). any_of (λ c. c == 47) l;
  punctuation = λ l. 0;
}

abbrev digits : ℕ → Text
digits n = (48 ∷ []) ++ []

abbrev screen : Text
screen = bytes "a" ++ (10 ∷ 10 ∷ 10 ∷ (bytes "x/y" ++ (10 ∷ (bytes "---" ++ (10 ∷ bytes "b ")))))

clean_faithful_example :
    (keep_if is_text (clean patterns shapes digits false screen).out
      ≡ bytes "a" ∷ bytes "x/y" ∷ bytes "b" ∷ [])
    × (length (clean patterns shapes digits false screen).out
          + (clean patterns shapes digits false screen).chrome
          + (clean patterns shapes digits false screen).blank
        ≡ 6)
unfolding split_on trim_padding text_eq
clean_faithful_example = clean_faithful patterns shapes digits screen

folded-prose_example :
    Sub (bytes "a" ∷ bytes "b" ∷ []) (clean patterns shapes digits true screen).out
unfolding split_on trim_padding text_eq is_code_like trim_space
folded-prose_example = folded-prose patterns shapes digits screen

-- A lone line of code after a paragraph break comes out before the break.
moved_blank :
    (clean patterns shapes digits true screen).out ≡ bytes "a" ∷ bytes "x/y" ∷ [] ∷ bytes "b" ∷ []
unfolding clean clean_lines clean_line flush_code split_on trim_padding text_eq is_code_like
    trim_space
moved_blank = refl

-- The blanks before a block of code are not counted.
lost_blank :
    (clean patterns shapes digits true
      (bytes "a" ++ (10 ∷ 10 ∷ (bytes "x/y" ++ (10 ∷ bytes "x/z"))))).blank
    ≡ 0
unfolding clean clean_lines clean_line flush_code split_on trim_padding text_eq is_code_like
    trim_space
lost_blank = refl

abbrev up : Upstream
up = record { resolve = λ t. some t; starts = λ n. true }

abbrev empty_hub : Hub
empty_hub = record { shared = []; summary = []; transcript = []; next = 0 }

abbrev ops : List Op
ops =
    Op.shown ((bytes "s/p", bytes "live") ∷ [])
    ∷ Op.framed (bytes "s/p") 0 true (record { cols = 120; rows = 40 })
    ∷ Op.scrolled (bytes "s/p") 3
    ∷ Op.shown ((bytes "s/p", bytes "transcript") ∷ [])
    ∷ []

run-Quiet_example : Quiet (run up (bytes "phone") ops (empty_hub, new_session)).1
unfolding lookup
run-Quiet_example = run-Quiet up (bytes "phone") ops (empty_hub, new_session) (λ t e. refl)

looking-Harmless_example :
    All Harmless (run up (bytes "phone") ops (empty_hub, new_session)).1.calls
looking-Harmless_example =
    looking-Harmless up (bytes "phone") empty_hub ops (tt, (tt, (tt, (tt, tt))))

abbrev watcher : Session
watcher = record new_session { modes = (bytes "s/p", Mode.live) ∷ [] }

abbrev nowhere : Upstream
nowhere = record { resolve = λ t. none; starts = λ n. false }

supervise_restart-Settled_example :
    Settled
      (bytes "s/p")
      (supervise_restart nowhere (bytes "phone") (bytes "s/p") (λ n s. s) (empty_hub, watcher))
    ⊎ ((is_restarting (bytes "s/p") watcher ≡ true)
        × (supervise_restart nowhere (bytes "phone") (bytes "s/p") (λ n s. s) (empty_hub, watcher)
            ≡ (empty_hub, watcher)))
supervise_restart-Settled_example =
    supervise_restart-Settled nowhere (bytes "phone") (bytes "s/p") (λ n s. s) empty_hub watcher

-- A restart succeeds and its stream dies before the deferred function has run: the second supervision
-- returns at once, and a live target is left without a stream and the client without a `closed`.
abbrev restarted : Hub × Session
restarted = supervise_restart up (bytes "phone") (bytes "s/p") (λ n s. s) (empty_hub, watcher)

abbrev died_early : Session × Bool
died_early = on_closed (bytes "s/p") 0 restarted.1

abbrev unhelped : Hub × Session
unhelped =
    supervise_restart up (bytes "phone") (bytes "s/p") (λ n s. s)
      (record (restarted.0) { shared = [] }, died_early.0)

lost_restart :
    (is_some (lookup (bytes "s/p") restarted.1.streams) ≡ true)
    × (died_early.1 ≡ true)
    × (is_some (lookup (bytes "s/p") (end_restart (bytes "s/p") unhelped.1).streams) ≡ false)
    × (is_live (mode_of (bytes "s/p") (end_restart (bytes "s/p") unhelped.1)) ≡ true)
    × ((end_restart (bytes "s/p") unhelped.1).notices
        ≡ Notice.gap (bytes "s/p") ∷ Notice.repaint (bytes "s/p") ∷ [])
unfolding supervise_restart begin_restart end_restart on_closed attempts attempt start_stream
    attach_shared open_shared join_shared request_repaint lookup insert delete text_eq
lost_restart = (refl, refl, refl, refl, refl)

-- A size that was given back is still what a control stream starts at, until a frame says otherwise.
abbrev fitted : Geometry
fitted = record { cols = 100; rows = 60 }

abbrev fitting : List Op
fitting =
    Op.shown ((bytes "s/p", bytes "live") ∷ [])
    ∷ Op.sized false (bytes "s/p") fitted
    ∷ Op.framed (bytes "s/p") 1 true fitted
    ∷ Op.shown []
    ∷ Op.matched (bytes "s/p")
    ∷ Op.typed (bytes "s/p") (bytes "x")
    ∷ []

stale_size :
    (run up (bytes "phone") fitting (empty_hub, new_session)).1.calls
    ≡ Upcall.launch (launched (bytes "s/p") TerminalMode.observe no_geometry)
      ∷ Upcall.launch (launched (bytes "s/p") TerminalMode.observe fitted)
      ∷ Upcall.launch (launched (bytes "s/p") TerminalMode.control fitted)
      ∷ Upcall.input (bytes "s/p") (bytes "x")
      ∷ []
unfolding run apply set_viewport parsed show_all hide_all show set_geometry match_pane input
    ensure_control restart_live stop_stream start_stream attach_shared open_shared open_private
    join_shared detach geometry_for note_attached request_repaint take_frame parse_mode lookup
    insert delete text_eq unsubscribe
stale_size = refl

abbrev world : World
world = record { hub = empty_hub; sessions = λ (i : Text). watcher }

abbrev events : List Event
events =
    Event.started (bytes "phone") (bytes "s/p") TerminalMode.observe
    ∷ Event.started (bytes "laptop") (bytes "s/p") TerminalMode.observe
    ∷ Event.framed (bytes "s/p") 0 true fitted
    ∷ Event.left (bytes "phone")
    ∷ []

world-Linked : Linked world
unfolding lookup
world-Linked j t = refl

happen_all-Linked_example : Linked (happen_all up events world)
happen_all-Linked_example = happen_all-Linked up events world world-Linked

stream_watched_example :
    (j : Text) × (n : ℕ) × (held (bytes "s/p") ((happen_all up events world).sessions j)
      ≡ some (0, n))
unfolding happen_all happen stop_stream start_stream attach_shared open_shared join_shared detach
    note_attached request_repaint take_frame give_all on_frame close leave_all lookup insert delete
    text_eq unsubscribe_all
stream_watched_example = stream_watched up events world (bytes "s/p") world-Linked tt refl
