-- ===== src/Core/Hub/Bare.antt =====
-- internal/core/hub.go: what an operation leaves of a target that a connection has no stream on.
use herdr_expose.Prelude.{◌≡◌, refl, ap, ◌∙◌, inl, inr, Bool, true, false, not, ◌&&◌, none, some}
use herdr_expose.Prelude.Tests.{if_split, Bool-cases, Option-cases, is_some}
use herdr_expose.Prelude.Text.{Text, text_eq, text_eq_iff}
use herdr_expose.Prelude.Map.{
  Map, lookup, insert, delete, lookup-insert, lookup-delete, lookup-delete_self,
}
use herdr_expose.Core.Viewport.{Mode, Geometry, is_transcript, is_live, valid}
use herdr_expose.Core.Hub.{
  TerminalMode, SharedStream, Hub, Session, Upstream, mode_of, note_attached, request_repaint,
  stop_stream, start_stream, attach_shared, open_shared, open_private, join_shared, fresh_stream,
  is_shareable,
}
use herdr_expose.Core.Hub.Streams.{restart_live}

none-insert :
    {V : Type 0} (k j : Text) (v : V) (m : Map V)
    → text_eq k j ≡ false
    → lookup j m ≡ none
    → lookup j (insert k v m) ≡ none
none-insert k j v m t h = rw (lookup-insert k j v m, t) h

pub none-delete :
    {V : Type 0} (k j : Text) (m : Map V) → lookup j m ≡ none → lookup j (delete k m) ≡ none
none-delete k j m h = elim (Bool-cases (text_eq k j)) [
  | inl t ↦ rw (lookup-delete k j m, t) refl
  | inr t ↦ rw (lookup-delete k j m, t) h
]

-- A key that is there is another one than a key that is not.
pub none_update :
    {V : Type 0} (k j : Text) (v w : V) (m : Map V)
    → lookup k m ≡ some w
    → lookup j m ≡ none
    → lookup j (insert k v m) ≡ none
none_update k j v w m u h = elim (Bool-cases (text_eq k j)) [
  | inl q ↦
      let same : k ≡ j = (text_eq_iff k j).0 q in absurd (cc (h, u, ap (λ x. lookup x m) same))
  | inr q ↦ none-insert k j v m q h
]

-- No stream of `t` after the operation, and the modes as before it.
abbrev pub Bare : Text → Session → Hub × Session → Type 0
Bare t c x = (lookup t x.1.streams ≡ none) × (x.1.modes ≡ c.modes)

module _ (t : Text) where
  other_target :
      (target : Text) (c : Session)
      → is_transcript (mode_of t c) ≡ true
      → is_transcript (mode_of target c) ≡ false
      → text_eq target t ≡ false
  other_target target c ht hk = elim (Bool-cases (text_eq target t)) [
    | inl e ↦
        let same : target ≡ t = (text_eq_iff target t).0 e in
        absurd (cc (ht, hk, ap (λ x. is_transcript (mode_of x c)) same))
    | inr e ↦ e
  ]

  pub request_repaint-Bare :
      (target : Text) (h : Hub) (c : Session)
      → lookup t c.streams ≡ none
      → Bare t c (h, request_repaint target c)
  unfolding request_repaint
  request_repaint-Bare target h c e = elim (Option-cases (lookup target c.streams)) [
    | inl u ↦ rw u (e, refl)
    | inr (ls, u) ↦
        rw u (none_update target t (record ls { need_snap = true }) ls c.streams u e, refl)
  ]

  pub note_attached-Bare :
      (target : Text) (g : Geometry) (h : Hub) (c : Session)
      → lookup t c.streams ≡ none
      → Bare t c (h, note_attached target g c)
  unfolding note_attached
  note_attached-Bare target g h c e =
      if_split (λ (x : Session). Bare t c (h, x)) _ (λ _. (e, refl)) λ _. (e, refl)

  pub stop_stream-Bare :
      (me target : Text) (h : Hub) (c : Session)
      → lookup t c.streams ≡ none
      → Bare t c (stop_stream me target (h, c))
  unfolding stop_stream
  stop_stream-Bare me target h c e = elim (Option-cases (lookup target c.streams)) [
    | inl u ↦ rw (stop_stream, u) (e, refl)
    | inr (ls, u) ↦ rw (stop_stream, u) (none-delete target t c.streams e, refl)
  ]

  pub stop_self : (me : Text) (h : Hub) (c : Session) → Bare t c (stop_stream me t (h, c))
  unfolding stop_stream
  stop_self me h c = elim (Option-cases (lookup t c.streams)) [
    | inl u ↦ rw (stop_stream, u) (u, refl)
    | inr (ls, u) ↦ rw (stop_stream, u) (lookup-delete_self t c.streams, refl)
  ]

  join_shared-Bare :
      (me target : Text) (ss : SharedStream) (h : Hub) (c : Session)
      → text_eq target t ≡ false
      → lookup t c.streams ≡ none
      → Bare t c (join_shared me target ss (h, c)).0
  unfolding join_shared
  join_shared-Bare me target ss h c ne e =
      let c1 = record c {
        streams =
            insert target (fresh_stream h.next (some ss.serial) TerminalMode.observe) c.streams;
      } in
      let e1 : lookup t c1.streams ≡ none = none-insert target t _ c.streams ne e in
      if_split (λ (x : Session). Bare t c (h, request_repaint target x)) (valid ss.geom)
        (λ _.
          let (a, b) = note_attached-Bare target ss.geom h c1 e1 in
          let (a2, b2) = request_repaint-Bare target h (note_attached target ss.geom c1) a in
          (a2, b2 ∙ b))
        λ _. request_repaint-Bare target h c1 e1

  open_Bare :
      (up : Upstream) (me target pane : Text) (mode : TerminalMode) (h : Hub) (c : Session)
      → text_eq target t ≡ false
      → lookup t c.streams ≡ none
      → Bare t c (open_shared up me target pane (h, c)).0
        × Bare t c (open_private up target pane mode (h, c)).0
  unfolding open_shared open_private
  open_Bare up me target pane mode h c ne e = (
    if_split (λ (x : (Hub × Session) × Bool). Bare t c x.0) (up.starts h.next)
        (λ _. (none-insert target t _ c.streams ne e, refl)) λ _. (e, refl),
    if_split (λ (x : (Hub × Session) × Bool). Bare t c x.0) (up.starts h.next)
        (λ _. (none-insert target t _ c.streams ne e, refl)) λ _. (e, refl),
  )

  attach_shared-Bare :
      (up : Upstream) (me target pane : Text) (h : Hub) (c : Session)
      → text_eq target t ≡ false
      → lookup t c.streams ≡ none
      → Bare t c (attach_shared up me target pane (h, c)).0
  unfolding attach_shared
  attach_shared-Bare up me target pane h c ne e = elim (Option-cases (lookup target h.shared)) [
    | inl u ↦ rw (attach_shared, u) (open_Bare up me target pane TerminalMode.observe h c ne e).0
    | inr (ss, u) ↦ rw (attach_shared, u) (join_shared-Bare me target ss h c ne e)
  ]

  pub start_stream-Bare :
      (up : Upstream) (me target : Text) (mode : TerminalMode) (h : Hub) (c : Session)
      → is_transcript (mode_of t c) ≡ true
      → lookup t c.streams ≡ none
      → Bare t c (start_stream up me target mode (h, c)).0
  unfolding start_stream
  start_stream-Bare up me target mode h c ht e =
      let P = λ (x : (Hub × Session) × Bool). Bare t c x.0 in
      if_split P (is_transcript (mode_of target c)) (λ _. (e, refl))
        λ hk.
          let ne = other_target target c ht hk in
          elim (Option-cases (up.resolve target)) [
            | inl u ↦ rw u (e, refl)
            | inr (pane, u) ↦ rw u (
                if_split P c.closed (λ _. (e, refl))
                  λ _.
                    if_split P (is_some (lookup target c.streams)) (λ _. (e, refl))
                      λ _.
                        if_split P (is_shareable mode target c)
                          (λ _. attach_shared-Bare up me target pane h c ne e)
                          λ _. (open_Bare up me target pane mode h c ne e).1)
          ]

  pub mode_same : (c d : Session) → d.modes ≡ c.modes → mode_of t d ≡ mode_of t c
  mode_same c d e = ap (λ (ms : Map Mode). elim (lookup t ms) [ none ↦ Mode.hidden | some m ↦ m ]) e

  -- One operation after another.
  pub after_Bare :
      (c : Session) (x y : Hub × Session)
      → is_transcript (mode_of t c) ≡ true
      → Bare t c x
      → (is_transcript (mode_of t x.1) ≡ true → lookup t x.1.streams ≡ none → Bare t x.1 y)
      → Bare t c y
  after_Bare c x y ht (e, m) k =
      let (e2, m2) = k (ap is_transcript (mode_same c x.1 m) ∙ ht) e in (e2, m2 ∙ m)

  pub restart_live-Bare :
      (up : Upstream) (me target : Text) (h : Hub) (c : Session)
      → is_transcript (mode_of t c) ≡ true
      → lookup t c.streams ≡ none
      → Bare t c (restart_live up me target (h, c))
  unfolding restart_live
  restart_live-Bare up me target h c ht e =
      let s = stop_stream me target (h, c) in
      let b = stop_stream-Bare me target h c e in
      if_split (Bare t c) (not s.1.closed && is_live (mode_of target s.1))
        (λ _.
          after_Bare c s (start_stream up me target TerminalMode.observe s).0 ht b
            (λ ht2 e2. start_stream-Bare up me target TerminalMode.observe s.0 s.1 ht2 e2))
        λ _. b
