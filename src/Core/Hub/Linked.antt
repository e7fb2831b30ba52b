-- ===== src/Core/Hub/Linked.antt =====
-- internal/core/shared.go: a shared stream and its subscribers name each other.
use herdr_expose.Prelude.{
  ℕ, ◌≡◌, refl, sym, ap, subst, ◌∙◌, inl, inr, Bool, true, false, ◌&&◌, Option, none, some, List,
  [], ◌∷◌, arith,
}
use herdr_expose.Prelude.Tests.{if_split, ◌==◌, ==_iff, if◌then◌else◌, Bool-cases, Option-cases}
use herdr_expose.Prelude.Text.{Text, text_eq, text_eq_iff}
use herdr_expose.Prelude.Map.{
  Map, lookup, insert, delete, lookup-delete, lookup-insert_self, lookup-delete_self,
}
use herdr_expose.Core.Viewport.{Geometry, valid}
use herdr_expose.Core.Hub.{
  LiveStream, SharedStream, Hub, Session, Upstream, note_attached, stop_stream, start_stream,
}
use herdr_expose.Core.Hub.Streams.{close, take_frame}
use herdr_expose.Core.Hub.Restarts.{on_closed}
use herdr_expose.Core.Hub.Fanout.{
  World, set_session, locally, give_all, on_frame, on_died, Event, happen, happen_all,
}
use herdr_expose.Core.Hub.Entries.{
  paired, entry_in, entry, share_of, held_in, held, Linked, Local, by_target,
}
use herdr_expose.Core.Hub.Local.{
  stop_stream-Local, entry-insert_other, held-insert_same, held-note_attached, start_stream-Local,
  close-Local,
}

Local-Linked :
    (i : Text) (op : Hub × Session → Hub × Session) (w : World)
    → Linked w
    → Local i w.hub.shared (op (w.hub, w.sessions i))
    → Linked (locally i op w)
Local-Linked i op w l (a, b) j t = elim (Bool-cases (text_eq i j)) [
  | inl e ↦
      let same : i ≡ j = (text_eq_iff i j).0 e in
      subst
        (λ x. entry x t (op (w.hub, w.sessions i)).0.shared ≡ held t (op (w.hub, w.sessions i)).1)
        same (b t)
      ∙ ap (λ q. held t (if q then (op (w.hub, w.sessions i)).1 else w.sessions j)) (sym e)
  | inr ne ↦
      a j t ne
      ∙ (l j t
          ∙ ap (λ q. held t (if q then (op (w.hub, w.sessions i)).1 else w.sessions j)) (sym ne))
]

held-take_frame :
    (t u : Text) (n : ℕ) (full : Bool) (g : Geometry) (c : Session)
    → held t (take_frame u n full g c).0 ≡ held t c
unfolding take_frame
held-take_frame t u n full g c =
    let c1 : Session = if valid g then note_attached u g c else c in
    let same : held t c1 ≡ held t c =
      if_split (λ (x : Session). held t x ≡ held t c) (valid g) (λ _. held-note_attached t u g c)
        (λ _. refl) in
    elim (Option-cases (lookup u c1.streams)) [
      | inl e ↦ rw (take_frame, e) same
      | inr (ls, e) ↦
          rw (take_frame, e)
            (if_split (λ (x : Session × Bool). held t x.0 ≡ held t c)
              (ls.serial == n && (full && ls.need_snap))
              (λ _.
                held-insert_same u t ls (record ls { need_snap = false }) c1.streams e refl refl
                ∙ same)
              λ _. same)
    ]

held-give_all :
    (t u : Text) (full : Bool) (g : Geometry) (subs : Map ℕ) (f : Text → Session) (j : Text)
    → held t (give_all u full g subs f j) ≡ held t (f j)
unfolding give_all
held-give_all t u full g [] f j = refl
held-give_all t u full g ((i, n) ∷ subs) f j =
    held-give_all t u full g subs (set_session i (take_frame u n full g (f i)).0 f) j
    ∙ elim (Bool-cases (text_eq i j)) [
      | inl e ↦
          let same : i ≡ j = (text_eq_iff i j).0 e in
          ap (λ q. held t (if q then (take_frame u n full g (f i)).0 else f j)) e
          ∙ (held-take_frame t u n full g (f i) ∙ ap (λ x. held t (f x)) same)
      | inr e ↦ ap (λ q. held t (if q then (take_frame u n full g (f i)).0 else f j)) e
    ]

on_frame-Linked :
    (u : Text) (n : ℕ) (full : Bool) (g : Geometry) (w : World)
    → Linked w
    → Linked (on_frame u n full g w)
unfolding on_frame
on_frame-Linked u n full g w l = elim (Option-cases (lookup u w.hub.shared)) [
  | inl e ↦ rw (on_frame, e) l
  | inr (ss, e) ↦ rw (on_frame, e) (if_split Linked (ss.serial == n) (λ _. given ss e) λ _. l)
]
  where
    kept : SharedStream → SharedStream
    kept ss = if valid g then record ss { geom = g } else ss

    as_before : (ss : SharedStream) (j : Text) → entry_in j (some (kept ss)) ≡ entry_in j (some ss)
    as_before ss j =
        if_split (λ (x : SharedStream). entry_in j (some x) ≡ entry_in j (some ss)) (valid g)
          (λ _. refl) λ _. refl

    given :
        (ss : SharedStream)
        → lookup u w.hub.shared ≡ some ss
        → Linked (record {
          hub = record (w.hub) { shared = insert u (kept ss) w.hub.shared };
          sessions = give_all u full g ss.subs w.sessions;
        })
    given ss e j t =
        by_target (λ x. entry j x (insert u (kept ss) w.hub.shared) ≡ entry j x w.hub.shared) u t
          (ap (entry_in j) (lookup-insert_self u (kept ss) w.hub.shared)
            ∙ (as_before ss j ∙ sym (ap (entry_in j) e)))
          (λ d. entry-insert_other j u t (kept ss) w.hub.shared d)
        ∙ (l j t ∙ sym (held-give_all t u full g ss.subs w.sessions j))

-- The streams that are left when a stream of the connection is retired.
retired : Text → ℕ → Session → Map LiveStream
retired u n c =
    if elim (lookup u c.streams) [ none ↦ false | some ls ↦ ls.serial == n ]
    then delete u c.streams
    else c.streams

on_closed-streams : (u : Text) (n : ℕ) (c : Session) → (on_closed u n c).0.streams ≡ retired u n c
unfolding on_closed retired
on_closed-streams u n c = ground arith

share_serial : (m n k : ℕ) (o : Option ℕ) → share_of k o ≡ some (m, n) → k ≡ n
share_serial m n k none h = absurd (cc (h))
share_serial m n k (some x) h = let e : (x, k) ≡ (m, n) = cc (h) in ap (λ (y : ℕ × ℕ). y.1) e

held_serial :
    (m n : ℕ) (o : Option LiveStream)
    → held_in o ≡ some (m, n)
    → (elim o [ none ↦ false | some ls ↦ ls.serial == n ]) ≡ true
held_serial m n none h = absurd (cc (h))
held_serial m n (some ls) h = (==_iff ls.serial n).1 (share_serial m n ls.serial ls.shared h)

retired_here :
    (u : Text) (m n : ℕ) (c : Session)
    → held u c ≡ some (m, n)
    → held_in (lookup u (retired u n c)) ≡ none
unfolding retired
retired_here u m n c h =
    rw (held_serial m n (lookup u c.streams) h) (ap held_in (lookup-delete_self u c.streams))

retired_elsewhere :
    (u t : Text) (n : ℕ) (c : Session)
    → text_eq u t ≡ false
    → held_in (lookup t (retired u n c)) ≡ held t c
unfolding retired
retired_elsewhere u t n c ne =
    if_split (λ (x : Map LiveStream). held_in (lookup t x) ≡ held t c)
      (elim (lookup u c.streams) [ none ↦ false | some ls ↦ ls.serial == n ])
      (λ _. ap held_in (rw (lookup-delete u t c.streams, ne) refl)) λ _. refl

on_died-Linked : (u : Text) (n : ℕ) (w : World) → Linked w → Linked (on_died u n w)
unfolding on_died
on_died-Linked u n w l = elim (Option-cases (lookup u w.hub.shared)) [
  | inl e ↦ rw (on_died, e) l
  | inr (ss, e) ↦ rw (on_died, e) (if_split Linked (ss.serial == n) (λ _. retire ss e) λ _. l)
]
  where
    after : SharedStream → Text → Session
    after ss j = elim (lookup j ss.subs) [
      | none ↦ w.sessions j
      | some k ↦ (on_closed u k (w.sessions j)).0
    ]

    gone :
        (ss : SharedStream) (j t : Text)
        → lookup u w.hub.shared ≡ some ss
        → held t (after ss j) ≡ entry j t (delete u w.hub.shared)
    gone ss j t e = elim (Option-cases (lookup j ss.subs)) [
      | inl q ↦
          rw (after, q)
            (by_target (λ x. held x (w.sessions j) ≡ entry j x (delete u w.hub.shared)) u t
              (sym (l j u)
                ∙ (ap (entry_in j) e
                    ∙ (ap (paired ss.serial) q
                        ∙ sym (ap (entry_in j) (lookup-delete_self u w.hub.shared)))))
              (λ d.
                sym (l j t) ∙ sym (ap (entry_in j) (rw (lookup-delete u t w.hub.shared, d) refl))))
      | inr (k, q) ↦
          let own : held u (w.sessions j) ≡ some (ss.serial, k) =
            sym (l j u) ∙ (ap (entry_in j) e ∙ ap (paired ss.serial) q) in
          rw (after, q)
            (by_target
              (λ x. held x (on_closed u k (w.sessions j)).0 ≡ entry j x (delete u w.hub.shared)) u t
              (ap (λ m. held_in (lookup u m)) (on_closed-streams u k (w.sessions j))
                ∙ (retired_here u ss.serial k (w.sessions j) own
                    ∙ sym (ap (entry_in j) (lookup-delete_self u w.hub.shared))))
              (λ d.
                ap (λ m. held_in (lookup t m)) (on_closed-streams u k (w.sessions j))
                ∙ (retired_elsewhere u t k (w.sessions j) d
                    ∙ (sym (l j t)
                        ∙ sym (ap (entry_in j) (rw (lookup-delete u t w.hub.shared, d) refl))))))
    ]

    retire :
        (ss : SharedStream)
        → lookup u w.hub.shared ≡ some ss
        → Linked (record {
          hub = record (w.hub) { shared = delete u w.hub.shared };
          sessions = λ (j : Text). after ss j;
        })
    retire ss e j t = sym (gone ss j t e)

happen-Linked : (up : Upstream) (e : Event) (w : World) → Linked w → Linked (happen up e w)
unfolding happen
happen-Linked up (Event.started i u mode) w l =
    Local-Linked i (λ s. (start_stream up i u mode s).0) w l
      (start_stream-Local up i u mode w.hub (w.sessions i) (l i))
happen-Linked up (Event.stopped i u) w l =
    Local-Linked i (stop_stream i u) w l (stop_stream-Local i u w.hub (w.sessions i) (l i))
happen-Linked up (Event.left i) w l =
    Local-Linked i (close i) w l (close-Local i w.hub (w.sessions i) (l i))
happen-Linked up (Event.framed u n full g) w l = on_frame-Linked u n full g w l
happen-Linked up (Event.died u n) w l = on_died-Linked u n w l

-- Whatever the connections start, stop and leave, whatever frames come and whichever streams die: a
-- shared stream counts a connection just where that connection watches it, under the same serials. So
-- the last to leave is the last that it counts, no viewer is left on a stream that is gone, and no
-- stream is kept for one that is not there.
pub happen_all-Linked :
    (up : Upstream) (es : List Event) (w : World) → Linked w → Linked (happen_all up es w)
unfolding happen_all
happen_all-Linked up [] w l = l
happen_all-Linked up (e ∷ es) w l = happen_all-Linked up es (happen up e w) (happen-Linked up e w l)
