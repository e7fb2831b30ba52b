-- ===== src/Core/Hub/Local.antt =====
-- internal/core/hub.go and shared.go: an operation of one connection keeps what the hub counts of it.
use herdr_expose.Prelude.{
  ℕ, ◌≡◌, refl, sym, ap, ap₂, subst, ◌∙◌, inl, inr, Bool, true, false, ◌||◌, none, some, [], ◌∷◌,
}
use herdr_expose.Prelude.Tests.{
  if_split, if◌then◌else◌, Bool-cases, Option-cases, is_some, is_some-false,
}
use herdr_expose.Prelude.Text.{Text, text_eq, text_eq_iff, text_eq_refl}
use herdr_expose.Prelude.Map.{
  Map, lookup, insert, delete, lookup-insert, lookup-delete, lookup-insert_self, lookup-delete_self,
}
use herdr_expose.Core.Viewport.{Geometry, valid, no_geometry, same_geometry, is_transcript}
use herdr_expose.Core.Hub.{
  TerminalMode, LiveStream, SharedStream, Hub, Session, Upstream, mode_of, geometry_at,
  note_attached, request_repaint, leave, stop_stream, start_stream, attach_shared, open_shared,
  open_private, join_shared, fresh_stream, is_shareable,
}
use herdr_expose.Core.Pollers.{unsubscribe_all}
use herdr_expose.Core.Hub.Streams.{leave_all, close}
use herdr_expose.Core.Hub.Entries.{
  paired, entry_in, entry, share_of, held_in, held, Local, Mine, by_target, leave-others,
  leave-elsewhere, leave-here,
}

pub stop_stream-Local :
    (i u : Text) (h : Hub) (c : Session) → Mine i (h, c) → Local i h.shared (stop_stream i u (h, c))
unfolding stop_stream
stop_stream-Local i u h c m = elim (Option-cases (lookup u c.streams)) [
  | inl e ↦ rw (stop_stream, e) (λ j t ne. refl, m)
  | inr (ls, e) ↦
      rw (stop_stream, e)
        (
          λ j t ne. leave-others i u j t ls h ne,
          λ t.
              by_target
                (λ x. entry i x (leave i u ls h).shared ≡ held_in (lookup x (delete u c.streams))) u
                t
                (leave-here i u ls h (inr (m u ∙ ap held_in e))
                  ∙ sym (ap held_in (lookup-delete_self u c.streams)))
                (λ ne.
                  leave-elsewhere i u t ls h ne
                  ∙ (m t ∙ sym (ap held_in (rw (lookup-delete u t c.streams, ne) refl)))),
        )
]

entry-insert_self :
    (j u : Text) (ss : SharedStream) (sh : Map SharedStream)
    → entry j u (insert u ss sh) ≡ paired ss.serial (lookup j ss.subs)
entry-insert_self j u ss sh = ap (entry_in j) (lookup-insert_self u ss sh)

pub entry-insert_other :
    (j u t : Text) (ss : SharedStream) (sh : Map SharedStream)
    → text_eq u t ≡ false
    → entry j t (insert u ss sh) ≡ entry j t sh
entry-insert_other j u t ss sh ne = ap (entry_in j) (rw (lookup-insert u t ss sh, ne) refl)

held-insert_self :
    (u : Text) (ls : LiveStream) (m : Map LiveStream)
    → held_in (lookup u (insert u ls m)) ≡ share_of ls.serial ls.shared
held-insert_self u ls m = ap held_in (lookup-insert_self u ls m)

held-insert_other :
    (u t : Text) (ls : LiveStream) (m : Map LiveStream)
    → text_eq u t ≡ false
    → held_in (lookup t (insert u ls m)) ≡ held_in (lookup t m)
held-insert_other u t ls m ne = ap held_in (rw (lookup-insert u t ls m, ne) refl)

-- A stream that only changes what its connection owes a snapshot is held as before.
pub held-insert_same :
    (u t : Text) (ls ls' : LiveStream) (m : Map LiveStream)
    → lookup u m ≡ some ls
    → ls'.serial ≡ ls.serial
    → ls'.shared ≡ ls.shared
    → held_in (lookup t (insert u ls' m)) ≡ held_in (lookup t m)
held-insert_same u t ls ls' m e a b =
    by_target (λ x. held_in (lookup x (insert u ls' m)) ≡ held_in (lookup x m)) u t
      (held-insert_self u ls' m ∙ (ap₂ share_of a b ∙ sym (ap held_in e)))
      (λ ne. held-insert_other u t ls' m ne)

held-request_repaint : (t u : Text) (c : Session) → held t (request_repaint u c) ≡ held t c
unfolding request_repaint
held-request_repaint t u c = elim (Option-cases (lookup u c.streams)) [
  | inl e ↦ rw e refl
  | inr (ls, e) ↦
      rw e (held-insert_same u t ls (record ls { need_snap = true }) c.streams e refl refl)
]

pub held-note_attached :
    (t u : Text) (g : Geometry) (c : Session) → held t (note_attached u g c) ≡ held t c
unfolding note_attached
held-note_attached t u g c =
    if_split (λ (x : Session). held t x ≡ held t c)
      (c.closed || same_geometry (geometry_at u c.attached) g) (λ _. refl) λ _. refl

join_shared-Local :
    (i u : Text) (ss : SharedStream) (h : Hub) (c : Session)
    → lookup u h.shared ≡ some ss
    → Mine i (h, c)
    → Local i h.shared (join_shared i u ss (h, c)).0
unfolding join_shared
join_shared-Local i u ss h c e m =
    let ls = fresh_stream h.next (some ss.serial) TerminalMode.observe in
    let ss' : SharedStream = record ss { subs = insert i h.next ss.subs } in
    let c1 : Session = record c { streams = insert u ls c.streams } in
    let c2 : Session = if valid ss.geom then note_attached u ss.geom c1 else c1 in
    let same : (t : Text) → held t (request_repaint u c2) ≡ held t c1 = λ t.
      held-request_repaint t u c2
      ∙ if_split (λ (x : Session). held t x ≡ held t c1) (valid ss.geom)
          (λ _. held-note_attached t u ss.geom c1) λ _. refl in
    (
      λ j t ne.
          by_target (λ x. entry j x (insert u ss' h.shared) ≡ entry j x h.shared) u t
            (entry-insert_self j u ss' h.shared
              ∙ (ap (paired ss.serial) (rw (lookup-insert i j h.next ss.subs, ne) refl)
                  ∙ sym (ap (entry_in j) e)))
            (λ d. entry-insert_other j u t ss' h.shared d),
      λ t.
          by_target (λ x. entry i x (insert u ss' h.shared) ≡ held x c1) u t
            (entry-insert_self i u ss' h.shared
              ∙ (ap (paired ss.serial) (lookup-insert_self i h.next ss.subs)
                  ∙ sym (held-insert_self u ls c.streams)))
            (λ d.
              entry-insert_other i u t ss' h.shared d
              ∙ (m t ∙ sym (held-insert_other u t ls c.streams d)))
          ∙ sym (same t),
    )

open_shared-Local :
    (up : Upstream) (i u pane : Text) (h : Hub) (c : Session)
    → lookup u h.shared ≡ none
    → Mine i (h, c)
    → Local i h.shared (open_shared up i u pane (h, c)).0
unfolding open_shared lookup
open_shared-Local up i u pane h c e m =
    if_split (λ (x : (Hub × Session) × Bool). Local i h.shared x.0) (up.starts h.next)
      (λ _. (
        λ j t ne.
            by_target (λ x. entry j x (insert u ss h.shared) ≡ entry j x h.shared) u t
              (entry-insert_self j u ss h.shared
                ∙ (ap (paired h.next) (alone j ne) ∙ sym (ap (entry_in j) e)))
              (λ d. entry-insert_other j u t ss h.shared d),
        λ t.
            by_target
              (λ x. entry i x (insert u ss h.shared) ≡ held_in (lookup x (insert u ls c.streams))) u
              t
              (entry-insert_self i u ss h.shared
                ∙ (ap (paired h.next) counted ∙ sym (held-insert_self u ls c.streams)))
              (λ d.
                entry-insert_other i u t ss h.shared d
                ∙ (m t ∙ sym (held-insert_other u t ls c.streams d))),
      ))
      λ _. (λ j t ne. refl, m)
  where
    ss : SharedStream
    ss = record { serial = h.next; subs = (i, h.next) ∷ []; geom = no_geometry }

    ls : LiveStream
    ls = fresh_stream h.next (some h.next) TerminalMode.observe

    alone : (j : Text) → text_eq i j ≡ false → lookup {V = ℕ} j ((i, h.next) ∷ []) ≡ none
    alone j ne = rw ne refl

    counted : lookup {V = ℕ} i ((i, h.next) ∷ []) ≡ some h.next
    counted = rw (text_eq_refl i) refl

open_private-Local :
    (up : Upstream) (i u pane : Text) (mode : TerminalMode) (h : Hub) (c : Session)
    → lookup u c.streams ≡ none
    → Mine i (h, c)
    → Local i h.shared (open_private up u pane mode (h, c)).0
unfolding open_private
open_private-Local up i u pane mode h c e m =
    if_split (λ (x : (Hub × Session) × Bool). Local i h.shared x.0) (up.starts h.next)
      (λ _. (
        λ j t ne. refl,
        λ t.
            by_target
              (λ x.
                entry i x h.shared
                ≡ held_in (lookup x (insert u (fresh_stream h.next none mode) c.streams)))
              u t
              (m u
                ∙ (ap held_in e
                    ∙ sym (
                        ap held_in
                          (lookup-insert_self u (fresh_stream h.next none mode) c.streams))))
              (λ ne.
                m t
                ∙ sym (
                    ap held_in
                      (rw (lookup-insert u t (fresh_stream h.next none mode) c.streams, ne) refl))),
      ))
      λ _. (λ j t ne. refl, m)

attach_shared-Local :
    (up : Upstream) (i u pane : Text) (h : Hub) (c : Session)
    → Mine i (h, c)
    → Local i h.shared (attach_shared up i u pane (h, c)).0
unfolding attach_shared
attach_shared-Local up i u pane h c m = elim (Option-cases (lookup u h.shared)) [
  | inl e ↦ rw (attach_shared, e) (open_shared-Local up i u pane h c e m)
  | inr (ss, e) ↦ rw (attach_shared, e) (join_shared-Local i u ss h c e m)
]

pub start_stream-Local :
    (up : Upstream) (i u : Text) (mode : TerminalMode) (h : Hub) (c : Session)
    → Mine i (h, c)
    → Local i h.shared (start_stream up i u mode (h, c)).0
unfolding start_stream
start_stream-Local up i u mode h c m =
    let P = λ (x : (Hub × Session) × Bool). Local i h.shared x.0 in
    if_split P (is_transcript (mode_of u c)) (λ _. (λ j t ne. refl, m))
      λ _. elim (Option-cases (up.resolve u)) [
        | inl e ↦ rw e (λ j t ne. refl, m)
        | inr (pane, e) ↦ rw e (
            if_split P c.closed (λ _. (λ j t ne. refl, m))
              λ _.
                if_split P (is_some (lookup u c.streams)) (λ _. (λ j t ne. refl, m))
                  λ q.
                    if_split P (is_shareable mode u c) (λ _. attach_shared-Local up i u pane h c m)
                      λ _.
                        open_private-Local up i u pane mode h c
                          (is_some-false (lookup u c.streams) q) m)
      ]

leave_all-others :
    (i j t : Text) (streams : Map LiveStream) (h : Hub)
    → text_eq i j ≡ false
    → entry j t (leave_all i streams h).shared ≡ entry j t h.shared
unfolding leave_all
leave_all-others i j t [] h ne = refl
leave_all-others i j t ((u, ls) ∷ streams) h ne =
    leave_all-others i j t streams (leave i u ls h) ne ∙ leave-others i u j t ls h ne

leave_all-none :
    (i t : Text) (streams : Map LiveStream) (h : Hub)
    → entry i t h.shared ≡ none
    → entry i t (leave_all i streams h).shared ≡ none
unfolding leave_all
leave_all-none i t [] h e = e
leave_all-none i t ((u, ls) ∷ streams) h e =
    leave_all-none i t streams (leave i u ls h) (elim (Bool-cases (text_eq u t)) [
      | inl q ↦
          let same : u ≡ t = (text_eq_iff u t).0 q in
          subst (λ x. entry i x (leave i u ls h).shared ≡ none) same
            (leave-here i u ls h (inl (subst (λ x. entry i x h.shared ≡ none) (sym same) e)))
      | inr ne ↦ leave-elsewhere i u t ls h ne ∙ e
    ])

leave_all-gone :
    (i t : Text) (streams : Map LiveStream) (h : Hub)
    → entry i t h.shared ≡ held_in (lookup t streams)
    → entry i t (leave_all i streams h).shared ≡ none
unfolding leave_all lookup
leave_all-gone i t [] h e = e
leave_all-gone i t ((u, ls) ∷ streams) h e = elim (Bool-cases (text_eq u t)) [
  | inl q ↦
      let same : u ≡ t = (text_eq_iff u t).0 q in
      let mine : entry i t h.shared ≡ share_of ls.serial ls.shared = rw q at e in
      leave_all-none i t streams (leave i u ls h) (
        subst (λ x. entry i x (leave i u ls h).shared ≡ none) same
          (leave-here i u ls h
            (inr (subst (λ x. entry i x h.shared ≡ share_of ls.serial ls.shared) (sym same) mine))))
  | inr ne ↦
      leave_all-gone i t streams (leave i u ls h) (leave-elsewhere i u t ls h ne ∙ (rw ne at e))
]

pub close-Local :
    (i : Text) (h : Hub) (c : Session) → Mine i (h, c) → Local i h.shared (close i (h, c))
unfolding close lookup
close-Local i h c m =
    let h1 = leave_all i c.streams h in
    let x : Hub × Session = (
      record h1 {
        summary = unsubscribe_all i h1.summary;
        transcript = unsubscribe_all i h1.transcript;
      },
      record c { closed = true; streams = [] },
    ) in
    let gone : Local i h.shared x = (
      λ j t ne. leave_all-others i j t c.streams h ne,
      λ t. leave_all-gone i t c.streams h (m t),
    ) in
    if_split (Local i h.shared) c.closed (λ _. (λ j t ne. refl, m)) λ _. gone
