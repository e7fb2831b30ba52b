-- ===== src/Core/Hub/Rooms.antt =====
-- internal/core/shared.go: an empty room generates no upstream traffic.
use herdr_expose.Prelude.{ℕ, ◌≡◌, refl, sym, ap, ◌∙◌, inl, inr, Bool, false, some, List, [], ◌∷◌}
use herdr_expose.Prelude.Tests.{if_split, ◌==◌, if◌then◌else◌, Option-cases, is_some}
use herdr_expose.Prelude.Lists.{is_empty}
use herdr_expose.Prelude.Text.{Text, text_eq, text_eq_refl}
use herdr_expose.Prelude.Map.{Map, lookup, insert, delete}
use herdr_expose.Prelude.Map.{Each, insert-Each, delete-Each, lookup-Each}
use herdr_expose.Core.Viewport.{Geometry, valid, is_transcript}
use herdr_expose.Core.Hub.{
  TerminalMode, LiveStream, SharedStream, Hub, Session, Upstream, mode_of, detach, leave,
  stop_stream, start_stream, attach_shared, open_shared, open_private, join_shared, is_shareable,
}
use herdr_expose.Core.Hub.Streams.{leave_all, close}
use herdr_expose.Core.Hub.Fanout.{World, on_frame, on_died, Event, happen, happen_all}
use herdr_expose.Core.Hub.Entries.{paired, entry_in, held, Linked, detach_split}
use herdr_expose.Core.Hub.Linked.{happen_all-Linked}

-- Somebody is counted.
abbrev HasViewers : SharedStream → Type 0
HasViewers ss = is_empty ss.subs ≡ false

abbrev pub Occupied : Hub → Type 0
Occupied h = Each HasViewers h.shared

abbrev OccupiedAfter : Hub × Session → Type 0
OccupiedAfter x = Occupied x.0

abbrev OccupiedResult : (Hub × Session) × Bool → Type 0
OccupiedResult x = Occupied x.0.0

is_empty-insert : {V : Type 0} (k : Text) (v : V) (m : Map V) → is_empty (insert k v m) ≡ false
unfolding insert
is_empty-insert k v [] = refl
is_empty-insert k v ((j, w) ∷ m) =
    if_split (λ (x : List (Text × _)). is_empty x ≡ false) (text_eq j k) (λ _. refl) λ _. refl

detach-Occupied :
    (i u : Text) (n : ℕ) (sh : Map SharedStream)
    → Each HasViewers sh
    → Each HasViewers (detach i u n sh)
detach-Occupied i u n sh o =
    detach_split (Each HasViewers) i u n sh (λ _. o)
      (λ ss e q.
        if_split (Each HasViewers) (is_empty (delete i ss.subs))
          (λ _. delete-Each HasViewers u sh o)
          λ b. insert-Each HasViewers u (record ss { subs = delete i ss.subs }) sh b o)
      (λ ss e q. o)

leave-Occupied : (i u : Text) (ls : LiveStream) (h : Hub) → Occupied h → Occupied (leave i u ls h)
leave-Occupied i u ls h o = elim (Option-cases ls.shared) [
  | inl e ↦ rw (leave, e) o
  | inr (n, e) ↦ rw (leave, e) (detach-Occupied i u n h.shared o)
]

leave_all-Occupied :
    (i : Text) (streams : Map LiveStream) (h : Hub) → Occupied h → Occupied (leave_all i streams h)
unfolding leave_all
leave_all-Occupied i [] h o = o
leave_all-Occupied i ((u, ls) ∷ streams) h o =
    leave_all-Occupied i streams (leave i u ls h) (leave-Occupied i u ls h o)

stop_stream-Occupied :
    (i u : Text) (h : Hub) (c : Session) → Occupied h → Occupied (stop_stream i u (h, c)).0
unfolding stop_stream
stop_stream-Occupied i u h c o = elim (Option-cases (lookup u c.streams)) [
  | inl e ↦ rw (stop_stream, e) o
  | inr (ls, e) ↦ rw (stop_stream, e) (leave-Occupied i u ls h o)
]

attach_shared-Occupied :
    (up : Upstream) (i u pane : Text) (h : Hub) (c : Session)
    → Occupied h
    → OccupiedResult (attach_shared up i u pane (h, c))
unfolding attach_shared open_shared join_shared
attach_shared-Occupied up i u pane h c o = elim (Option-cases (lookup u h.shared)) [
  | inl e ↦
      rw (attach_shared, e)
        (if_split OccupiedResult (up.starts h.next)
          (λ _. insert-Each HasViewers u _ h.shared refl o) λ _. o)
  | inr (ss, e) ↦
      rw (attach_shared, e)
        (insert-Each HasViewers u (record ss { subs = insert i h.next ss.subs }) h.shared
          (is_empty-insert i h.next ss.subs) o)
]

start_stream-Occupied :
    (up : Upstream) (i u : Text) (mode : TerminalMode) (h : Hub) (c : Session)
    → Occupied h
    → OccupiedResult (start_stream up i u mode (h, c))
unfolding start_stream open_private
start_stream-Occupied up i u mode h c o =
    if_split OccupiedResult (is_transcript (mode_of u c)) (λ _. o)
      λ _. elim (Option-cases (up.resolve u)) [
        | inl e ↦ rw e o
        | inr (pane, e) ↦ rw e (
            if_split OccupiedResult c.closed (λ _. o)
              λ _.
                if_split OccupiedResult (is_some (lookup u c.streams)) (λ _. o)
                  λ _.
                    if_split OccupiedResult (is_shareable mode u c)
                      (λ _. attach_shared-Occupied up i u pane h c o)
                      λ _. if_split OccupiedResult (up.starts h.next) (λ _. o) λ _. o)
      ]

close-Occupied : (i : Text) (h : Hub) (c : Session) → Occupied h → Occupied (close i (h, c)).0
unfolding close
close-Occupied i h c o =
    if_split OccupiedAfter c.closed (λ _. o) λ _. leave_all-Occupied i c.streams h o

on_frame-Occupied :
    (u : Text) (n : ℕ) (full : Bool) (g : Geometry) (w : World)
    → Occupied w.hub
    → Occupied (on_frame u n full g w).hub
unfolding on_frame
on_frame-Occupied u n full g w o = elim (Option-cases (lookup u w.hub.shared)) [
  | inl e ↦ rw (on_frame, e) o
  | inr (ss, e) ↦
      rw (on_frame, e)
        (if_split (λ (x : World). Occupied x.hub) (ss.serial == n)
          (λ _.
            insert-Each HasViewers u (if valid g then record ss { geom = g } else ss) w.hub.shared
              (if_split HasViewers (valid g) (λ _. lookup-Each HasViewers u ss w.hub.shared e o)
                (λ _. lookup-Each HasViewers u ss w.hub.shared e o))
              o)
          λ _. o)
]

on_died-Occupied : (u : Text) (n : ℕ) (w : World) → Occupied w.hub → Occupied (on_died u n w).hub
unfolding on_died
on_died-Occupied u n w o = elim (Option-cases (lookup u w.hub.shared)) [
  | inl e ↦ rw (on_died, e) o
  | inr (ss, e) ↦
      rw (on_died, e)
        (if_split (λ (x : World). Occupied x.hub) (ss.serial == n)
          (λ _. delete-Each HasViewers u w.hub.shared o) λ _. o)
]

happen-Occupied :
    (up : Upstream) (e : Event) (w : World) → Occupied w.hub → Occupied (happen up e w).hub
unfolding happen
happen-Occupied up (Event.started i u mode) w o =
    start_stream-Occupied up i u mode w.hub (w.sessions i) o
happen-Occupied up (Event.stopped i u) w o = stop_stream-Occupied i u w.hub (w.sessions i) o
happen-Occupied up (Event.left i) w o = close-Occupied i w.hub (w.sessions i) o
happen-Occupied up (Event.framed u n full g) w o = on_frame-Occupied u n full g w o
happen-Occupied up (Event.died u n) w o = on_died-Occupied u n w o

happen_all-Occupied :
    (up : Upstream) (es : List Event) (w : World)
    → Occupied w.hub
    → Occupied (happen_all up es w).hub
unfolding happen_all
happen_all-Occupied up [] w o = o
happen_all-Occupied up (e ∷ es) w o =
    happen_all-Occupied up es (happen up e w) (happen-Occupied up e w o)

first_viewer : (m : Map ℕ) → is_empty m ≡ false → (j : Text) × (n : ℕ) × (lookup j m ≡ some n)
unfolding lookup
first_viewer [] h = absurd (cc (h))
first_viewer ((j, n) ∷ m) h = (j, n, rw (text_eq_refl j) refl)

-- An empty room generates no upstream traffic. Whatever the connections start, stop and leave, whatever
-- frames come and whichever streams die, from where nothing runs: a shared stream of a target has a
-- connection that watches that target through it.
pub stream_watched :
    (up : Upstream) (es : List Event) (w : World) (t : Text) {ss : SharedStream}
    → Linked w
    → Occupied w.hub
    → lookup t (happen_all up es w).hub.shared ≡ some ss
    → (j : Text) × (n : ℕ) × (held t ((happen_all up es w).sessions j) ≡ some (ss.serial, n))
stream_watched up es w t {ss} l o e =
    let (j, n, f) = first_viewer ss.subs (
      lookup-Each HasViewers t ss (happen_all up es w).hub.shared e
        (happen_all-Occupied up es w o)) in
    (j, n, sym (happen_all-Linked up es w l j t) ∙ (ap (entry_in j) e ∙ ap (paired ss.serial) f))
