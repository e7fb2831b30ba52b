-- ===== src/Core/Hub/Modest.antt =====
-- internal/core/hub.go: what a connection that only looks starts, keeps and stops.
use herdr_expose.Prelude.{
  ◌≡◌, refl, ap, inl, inr, Bool, true, false, not, ◌||◌, none, some, List, [], ◌∷◌,
}
use herdr_expose.Prelude.Tests.{if_split, if◌then◌else◌, Option-cases, is_some}
use herdr_expose.Prelude.Lists.{All, snoc}
use herdr_expose.Prelude.Text.{Text}
use herdr_expose.Prelude.Map.{Each, insert-Each, delete-Each, lookup-Each, Map, lookup, insert}
use herdr_expose.Core.Viewport.{Geometry, is_transcript, valid, no_geometry, same_geometry}
use herdr_expose.Core.Hub.{
  TerminalMode, is_control, LiveStream, SharedStream, Hub, Upcall, Session, Upstream, mode_of,
  geometry_at, is_explicit, note_attached, request_repaint, stop_stream, start_stream,
  attach_shared, open_shared, join_shared, fresh_stream, launched, is_shareable,
}

-- What a connection may ask of a terminal without touching it: to be shown it at the size it has.
abbrev pub Harmless : Upcall → Type 0
Harmless (Upcall.launch l) =
    (is_control l.mode ≡ false) × (l.size ≡ no_geometry) × (l.takeover ≡ false)
Harmless (Upcall.resize target g) = ⊥
Harmless (Upcall.input target keys_) = ⊥
Harmless (Upcall.scroll target delta) = ⊥

abbrev pub Observer : LiveStream → Type 0
Observer ls = is_control ls.mode ≡ false

-- A connection that has only looked so far.
abbrev pub Modest : Session → Type 0
Modest c = (c.explicit ≡ []) × Each Observer c.streams × All Harmless c.calls

All-snoc : (u : Upcall) (us : List Upcall) → All Harmless us → Harmless u → All Harmless (snoc us u)
All-snoc u [] h k = (k, tt)
All-snoc u (v ∷ us) (a, h) k = (a, All-snoc u us h k)

abbrev pub ModestAfter : Hub × Session → Type 0
ModestAfter x = Modest x.1

abbrev pub ModestResult : (Hub × Session) × Bool → Type 0
ModestResult x = Modest x.0.1

pub note_attached-Modest :
    (target : Text) (g : Geometry) (c : Session) → Modest c → Modest (note_attached target g c)
unfolding note_attached
note_attached-Modest target g c q =
    if_split Modest (c.closed || same_geometry (geometry_at target c.attached) g) (λ _. q) λ _. q

pub request_repaint-Modest :
    (target : Text) (c : Session) → Modest c → Modest (request_repaint target c)
unfolding request_repaint
request_repaint-Modest target c (e, a, h) = elim (Option-cases (lookup target c.streams)) [
  | inl u ↦ rw u (e, a, h)
  | inr (ls, u) ↦ rw u (
    e,
    insert-Each Observer target (record ls { need_snap = true }) c.streams
        (lookup-Each Observer target ls c.streams u a) a,
    h,
  )
]

pub stop_stream-Modest :
    (me target : Text) (s : Hub × Session) → Modest s.1 → Modest (stop_stream me target s).1
unfolding stop_stream
stop_stream-Modest me target s (e, a, h) = elim (Option-cases (lookup target s.1.streams)) [
  | inl u ↦ rw (stop_stream, u) (e, a, h)
  | inr (ls, u) ↦ rw (stop_stream, u) (e, delete-Each Observer target s.1.streams a, h)
]

open_shared-Modest :
    (up : Upstream) (me target pane : Text) (s : Hub × Session)
    → Modest s.1
    → Modest (open_shared up me target pane s).0.1
unfolding open_shared
open_shared-Modest up me target pane s (e, a, h) =
    let l = launched pane TerminalMode.observe no_geometry in
    let h2 = All-snoc (Upcall.launch l) s.1.calls h (refl, refl, refl) in
    if_split ModestResult (up.starts s.0.next)
      (λ _. (
        e,
        insert-Each Observer target (fresh_stream s.0.next (some s.0.next) TerminalMode.observe)
            s.1.streams refl a,
        h2,
      ))
      λ _. (e, a, h2)

join_shared-Modest :
    (me target : Text) (ss : SharedStream) (s : Hub × Session)
    → Modest s.1
    → Modest (join_shared me target ss s).0.1
unfolding join_shared
join_shared-Modest me target ss s (e, a, h) =
    let ls = fresh_stream s.0.next (some ss.serial) TerminalMode.observe in
    let c1 : Session = record (s.1) { streams = insert target ls s.1.streams } in
    let q1 : Modest c1 = (e, insert-Each Observer target ls s.1.streams refl a, h) in
    let c2 : Session = if valid ss.geom then note_attached target ss.geom c1 else c1 in
    request_repaint-Modest target c2
      (if_split Modest (valid ss.geom) (λ _. note_attached-Modest target ss.geom c1 q1) λ _. q1)

unsized : (target : Text) (c : Session) → Modest c → is_explicit target c ≡ false
unfolding lookup
unsized target c (e, a, h) =
    ap (λ (x : Map Bool). elim (lookup target x) [ none ↦ false | some b ↦ b ]) e

pub start_stream-Modest :
    (up : Upstream) (me target : Text) (s : Hub × Session)
    → Modest s.1
    → Modest (start_stream up me target TerminalMode.observe s).0.1
unfolding start_stream attach_shared
start_stream-Modest up me target s q =
    if_split ModestResult (is_transcript (mode_of target s.1)) (λ _. q)
      λ _. elim (Option-cases (up.resolve target)) [
        | inl u ↦ rw u q
        | inr (pane, u) ↦ rw u (
            if_split ModestResult s.1.closed (λ _. q)
              λ _.
                if_split ModestResult (is_some (lookup target s.1.streams)) (λ _. q)
                  λ _.
                    if_split ModestResult (is_shareable TerminalMode.observe target s.1)
                      (λ _. attached pane) λ t. absurd (cc (t, ap not (unsized target s.1 q))))
      ]
  where
    attached : (pane : Text) → Modest (attach_shared up me target pane s).0.1
    attached pane = elim (Option-cases (lookup target s.0.shared)) [
      | inl u ↦ rw (attach_shared, u) (open_shared-Modest up me target pane s q)
      | inr (ss, u) ↦ rw (attach_shared, u) (join_shared-Modest me target ss s q)
    ]
