-- ===== src/Core/Hub.antt =====
-- internal/core/hub.go and shared.go: what one connection shows of its targets, and the upstream
-- streams behind it. Each operation is one step; the interleaving of two operations of one connection is
-- not modelled, nor are the data plane of a stream (see Core/Coalescer) and the 30 seconds after which a
-- stream counts as healthy. What the store and the subprocesses answer is the record `Upstream`. A
-- stream is named by the serial number that stands for its pointer.
pub mod Streams
pub mod Fanout
pub mod Entries
pub mod Local
pub mod Linked
pub mod Rooms
pub mod Restarts
pub mod Recovery
pub mod Modest
pub mod Looking
pub mod Steps
pub mod Modes
pub mod Bare
pub mod Shown
pub mod Quiet
use herdr_expose.Prelude.{
  ℕ, zero, suc, ◌+◌, ◌-◌, ◌*◌, ◌/◌, ◌%◌, ◌^◌, ◌≤◌, ◌<◌, ◌≡◌, refl, sym, ap, ap₂, subst, ◌∙◌, ◌≢◌,
  ◌↔◌, ◌⊎◌, inl, inr, Bool, true, false, not, ◌&&◌, ◌||◌, Option, none, some, List, [], ◌∷◌, ◌++◌,
  map, append-nil, append_assoc, arith,
}
use herdr_expose.Prelude.Tests.{
  if_split, ltb, leb, ◌==◌, ==_iff, if◌then◌else◌, Bool-cases, Option-cases, is_some, or_zero,
}
use herdr_expose.Prelude.Lists.{All, In, snoc, is_empty, length, take, drop, any_of, keep_if}
use herdr_expose.Prelude.Text.{Text, bytes, text_eq, text_eq_iff, text_eq_refl}
use herdr_expose.Prelude.Map.{
  Map, keys, lookup, insert, delete, lookup-insert, lookup-delete, lookup-insert_self,
  lookup-delete_self, Unique, insert-Unique, delete-Unique,
}
use herdr_expose.Core.Viewport.{
  Mode, Geometry, is_transcript, is_live, no_geometry, clamp, valid, same_geometry,
}
use herdr_expose.Core.Summary.{Subs}
use herdr_expose.Core.Transcript.{TranscriptSub}

pub data TerminalMode : Type 0 where
  observe : TerminalMode
  control : TerminalMode

abbrev pub is_control : TerminalMode → Bool
is_control TerminalMode.observe = false
is_control TerminalMode.control = true

pub record LiveStream : Type 0 where
  pub serial : ℕ
  -- The shared stream that the connection is subscribed to; none for a stream of its own.
  pub shared : Option ℕ
  pub mode : TerminalMode
  pub need_snap : Bool

pub record SharedStream : Type 0 where
  pub serial : ℕ
  -- The subscribers by connection, each with the serial of its own stream.
  pub subs : Map ℕ
  pub geom : Geometry

pub record Hub : Type 0 where
  pub shared : Map SharedStream
  pub summary : Subs
  pub transcript : Map (Map TranscriptSub)
  pub next : ℕ

-- A subprocess that is started for a target; without `--cols` and `--rows` the size is nought.
pub record Launch : Type 0 where
  pub pane_id : Text
  pub mode : TerminalMode
  pub size : Geometry
  pub takeover : Bool

-- What a connection asks of a terminal upstream.
pub data Upcall : Type 0 where
  launch : Launch → Upcall
  resize : Text → Geometry → Upcall
  input : Text → Text → Upcall
  scroll : Text → ℕ → Upcall

-- What a connection tells its client, apart from the output of the streams. A repaint is asked for.
pub data Notice : Type 0 where
  closed : Text → Notice
  geometry : Text → Geometry → Bool → Notice
  repaint : Text → Notice
  gap : Text → Notice

pub record Session : Type 0 where
  pub geom : Map Geometry
  pub modes : Map Mode
  pub explicit : Map Bool
  pub attached : Map Geometry
  pub streams : Map LiveStream
  pub last_live : Text
  pub closed : Bool
  pub cancelled : Bool
  pub restarting : Map Bool
  pub restart_count : Map ℕ
  pub calls : List Upcall
  pub notices : List Notice

-- The pane id that a target resolves to, where it does; and whether the stream of a serial number starts.
pub record Upstream : Type 0 where
  pub resolve : Text → Option Text
  pub starts : ℕ → Bool

abbrev pub new_session : Session
new_session = record {
  geom = [];
  modes = [];
  explicit = [];
  attached = [];
  streams = [];
  last_live = [];
  closed = false;
  cancelled = false;
  restarting = [];
  restart_count = [];
  calls = [];
  notices = [];
}

-- The zero values of a missing key.
abbrev pub mode_of : Text → Session → Mode
mode_of target c = elim (lookup target c.modes) [ none ↦ Mode.hidden | some m ↦ m ]

abbrev pub geometry_at : Text → Map Geometry → Geometry
geometry_at target m = elim (lookup target m) [ none ↦ no_geometry | some g ↦ g ]

abbrev pub is_explicit : Text → Session → Bool
is_explicit target c = elim (lookup target c.explicit) [ none ↦ false | some b ↦ b ]

abbrev pub notify : Notice → Session → Session
notify n c = record c { notices = snoc c.notices n }

abbrev pub call : Upcall → Session → Session
call u c = record c { calls = snoc c.calls u }

unfoldable pub geometry_for : Text → Session → Geometry
geometry_for target c =
    if is_explicit target c
    then clamp (geometry_at target c.geom)
    else if valid (geometry_at target c.attached)
    then geometry_at target c.attached
    else no_geometry

unfoldable pub note_attached : Text → Geometry → Session → Session
note_attached target g c =
    if c.closed || same_geometry (geometry_at target c.attached) g
    then c
    else notify (Notice.geometry target g (is_explicit target c))
        (record c { attached = insert target g c.attached })

-- The part of `requestRepaint` that changes state: the read runs by itself.
unfoldable pub request_repaint : Text → Session → Session
request_repaint target c = notify (Notice.repaint target) (elim (lookup target c.streams) [
  | none ↦ c
  | some ls ↦ record c { streams = insert target (record ls { need_snap = true }) c.streams }
])

-- `detach` and `dropShared`: the last subscriber takes the stream with it. A stream that is no longer
-- the current one of its target is dead, and leaving it changes nothing.
unfoldable pub detach : Text → Text → ℕ → Map SharedStream → Map SharedStream
detach me target n shared = elim (lookup target shared) [
  | none ↦ shared
  | some ss ↦
      if ss.serial == n
      then (if is_empty (delete me ss.subs)
          then delete target shared
          else insert target (record ss { subs = delete me ss.subs }) shared)
      else shared
]

abbrev pub leave : Text → Text → LiveStream → Hub → Hub
leave me target ls h = elim ls.shared [
  | none ↦ h
  | some n ↦ record h { shared = detach me target n h.shared }
]

unfoldable pub stop_stream : Text → Text → Hub × Session → Hub × Session
unfolding detach
stop_stream me target (h, c) = elim (lookup target c.streams) [
  | none ↦ (h, c)
  | some ls ↦ (leave me target ls h, record c { streams = delete target c.streams })
]

abbrev pub launched : Text → TerminalMode → Geometry → Launch
launched pane mode g = record { pane_id = pane; mode = mode; size = g; takeover = is_control mode }

-- A stream that could not start.
abbrev pub refused : Text → Hub × Session → (Hub × Session) × Bool
refused target (h, c) = ((h, notify (Notice.closed target) c), false)

abbrev pub fresh_stream : ℕ → Option ℕ → TerminalMode → LiveStream
fresh_stream serial shared mode = record {
  serial = serial;
  shared = shared;
  mode = mode;
  need_snap = true;
}

-- `attachShared` on a stream that runs, and what a late joiner is owed.
unfoldable pub join_shared : Text → Text → SharedStream → Hub × Session → (Hub × Session) × Bool
unfolding note_attached request_repaint
join_shared me target ss (h, c) =
    let ls = fresh_stream h.next (some ss.serial) TerminalMode.observe in
    let c1 = record c { streams = insert target ls c.streams } in
    let c2 = if valid ss.geom then note_attached target ss.geom c1 else c1 in
    (
      (
        record h {
          next = h.next + 1;
          shared = insert target (record ss { subs = insert me h.next ss.subs }) h.shared;
        },
        request_repaint target c2,
      ),
      true,
    )

-- `attachShared` where there is no stream of the target yet: no size is passed.
unfoldable pub open_shared : Upstream → Text → Text → Text → Hub × Session → (Hub × Session) × Bool
open_shared up me target pane (h, c) =
    let n = h.next in
    let c1 = call (Upcall.launch (launched pane TerminalMode.observe no_geometry)) c in
    if up.starts n
    then (
      (
        record h {
          next = n + 1;
          shared =
              insert target (record { serial = n; subs = (me, n) ∷ []; geom = no_geometry })
                h.shared;
        },
        record c1 {
          streams = insert target (fresh_stream n (some n) TerminalMode.observe) c1.streams;
        },
      ),
      true,
    )
    else refused target (record h { next = n + 1 }, c1)

unfoldable pub open_private :
    Upstream → Text → Text → TerminalMode → Hub × Session → (Hub × Session) × Bool
unfolding geometry_for
open_private up target pane mode (h, c) =
    let n = h.next in
    let c1 = call (Upcall.launch (launched pane mode (geometry_for target c))) c in
    let h1 = record h { next = n + 1 } in
    if up.starts n
    then ((h1, record c1 { streams = insert target (fresh_stream n none mode) c1.streams }), true)
    else refused target (h1, c1)

unfoldable pub attach_shared :
    Upstream → Text → Text → Text → Hub × Session → (Hub × Session) × Bool
unfolding join_shared open_shared
attach_shared up me target pane (h, c) = elim (lookup target h.shared) [
  | none ↦ open_shared up me target pane (h, c)
  | some ss ↦ join_shared me target ss (h, c)
]

abbrev pub is_shareable : TerminalMode → Text → Session → Bool
is_shareable mode target c = not (is_control mode) && not (is_explicit target c)

unfoldable pub start_stream :
    Upstream → Text → Text → TerminalMode → Hub × Session → (Hub × Session) × Bool
unfolding attach_shared open_private
start_stream up me target mode (h, c) =
    if is_transcript (mode_of target c) then ((h, c), false) else elim (up.resolve target) [
      | none ↦ refused target (h, c)
      | some pane ↦
          if c.closed
          then ((h, c), false)
          else if is_some (lookup target c.streams)
          then ((h, c), true)
          else if is_shareable mode target c
          then attach_shared up me target pane (h, c)
          else open_private up target pane mode (h, c)
    ]
