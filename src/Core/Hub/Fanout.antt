-- ===== src/Core/Hub/Fanout.antt =====
-- internal/core/shared.go: one stream of a target for all the connections that watch it.
use herdr_expose.Prelude.{ℕ, Bool, none, some, List, [], ◌∷◌}
use herdr_expose.Prelude.Tests.{◌==◌, if◌then◌else◌}
use herdr_expose.Prelude.Lists.{length}
use herdr_expose.Prelude.Text.{Text, text_eq}
use herdr_expose.Prelude.Map.{Map, lookup, insert, delete}
use herdr_expose.Core.Viewport.{Geometry, valid}
use herdr_expose.Core.Hub.{TerminalMode, Hub, Session, Upstream, start_stream, stop_stream}
use herdr_expose.Core.Hub.Streams.{close, take_frame}
use herdr_expose.Core.Hub.Restarts.{on_closed}

-- The hub, and every connection by its name.
pub record World : Type 0 where
  pub hub : Hub
  pub sessions : Text → Session

abbrev pub set_session : Text → Session → (Text → Session) → Text → Session
set_session i c f j = if text_eq i j then c else f j

-- An operation of one connection.
abbrev pub locally : Text → (Hub × Session → Hub × Session) → World → World
locally i op w =
    let (h, c) = op (w.hub, w.sessions i) in
    record { hub = h; sessions = set_session i c w.sessions }

-- The second loop of `OnFrame`: each subscriber takes the frame as one of its own stream.
unfoldable pub give_all : Text → Bool → Geometry → Map ℕ → (Text → Session) → Text → Session
give_all target full g [] f = f
give_all target full g ((i, n) ∷ subs) f =
    give_all target full g subs (set_session i (take_frame target n full g (f i)).0 f)

-- `OnFrame` of the stream of this serial. A stream that is not the current one of its target is dead and
-- has no subscribers.
unfoldable pub on_frame : Text → ℕ → Bool → Geometry → World → World
unfolding give_all
on_frame target serial full g w = elim (lookup target w.hub.shared) [
  | none ↦ w
  | some ss ↦
      let kept = if valid g then record ss { geom = g } else ss in
      if ss.serial == serial
      then record {
        hub = record (w.hub) { shared = insert target kept w.hub.shared };
        sessions = give_all target full g ss.subs w.sessions;
      }
      else w
]

-- `OnClosed` of a stream that died, with `onSharedClosed` for each subscriber.
unfoldable pub on_died : Text → ℕ → World → World
unfolding on_closed
on_died target serial w = elim (lookup target w.hub.shared) [
  | none ↦ w
  | some ss ↦
      if ss.serial == serial
      then record {
        hub = record (w.hub) { shared = delete target w.hub.shared };
        sessions = λ (i : Text). elim (lookup i ss.subs) [
          | none ↦ w.sessions i
          | some n ↦ (on_closed target n (w.sessions i)).0
        ];
      }
      else w
]

-- How many observers run: `SharedStreams`.
abbrev pub shared_streams : Hub → ℕ
shared_streams h = length h.shared

pub data Event : Type 0 where
  started : Text → Text → TerminalMode → Event
  stopped : Text → Text → Event
  left : Text → Event
  framed : Text → ℕ → Bool → Geometry → Event
  died : Text → ℕ → Event

unfoldable pub happen : Upstream → Event → World → World
unfolding start_stream stop_stream close on_frame on_died
happen up (Event.started i target mode) w = locally i (λ s. (start_stream up i target mode s).0) w
happen up (Event.stopped i target) w = locally i (stop_stream i target) w
happen up (Event.left i) w = locally i (close i) w
happen up (Event.framed target serial full g) w = on_frame target serial full g w
happen up (Event.died target serial) w = on_died target serial w

unfoldable pub happen_all : Upstream → List Event → World → World
unfolding happen
happen_all up [] w = w
happen_all up (e ∷ es) w = happen_all up es (happen up e w)
