-- ===== src/Core/Sessions/Focus.antt =====
-- The session a client lands on, in internal/core/store.go.
use herdr_expose.Prelude.Map.{lookup, Map}
use herdr_expose.Core.Sessions.Publish.{is_guest, sorted_sessions, focus, build_tree}
use herdr_expose.Prelude.Lists.{any_of, is_empty, In}
use herdr_expose.Core.Sessions.{Writer, SessionState}
use herdr_expose.Prelude.{
  ℕ, ◌≡◌, refl, sym, ◌⊎◌, inl, inr, true, false, ◌&&◌, ◌||◌, List, [], ◌∷◌, arith,
}
use herdr_expose.Prelude.Tests.{if_split, Bool-cases}
use herdr_expose.Prelude.Text.{Text}

-- Where the focus stands: on the name it had, or on a connected session of the list.
abbrev Lands : List SessionState → Text → Text → Type 0
Lands sts before after =
    (after ≡ before)
    ⊎ ((st : SessionState) × In st sts × ((st.connected ≡ true) × (st.name ≡ after)))

Lands-later :
    (st : SessionState) (sts : List SessionState) (f g : Text)
    → Lands sts f g
    → Lands (st ∷ sts) f g
Lands-later st sts f g (inl e) = inl e
Lands-later st sts f g (inr (u, i, h)) = inr (u, inr i, h)

Lands-first :
    (st : SessionState) (sts : List SessionState) (f g : Text)
    → st.connected ≡ true
    → Lands sts st.name g
    → Lands (st ∷ sts) f g
Lands-first st sts f g c (inl e) = inr (st, inl refl, (c, sym e))
Lands-first st sts f g c (inr (u, i, h)) = inr (u, inr i, h)

focus-Lands :
    (m : Map SessionState) (sts : List SessionState) (f : Text) → Lands sts f (focus m sts f)
unfolding focus
focus-Lands m [] f = inl refl
focus-Lands m (st ∷ sts) f =
    elim (Bool-cases (st.connected && (is_empty f || (st.origin && is_guest (lookup f m))))) [
      | inl e ↦
          rw e
            (Lands-first st sts f (focus m sts st.name) (ground arith) (focus-Lands m sts st.name))
      | inr e ↦ rw e (Lands-later st sts f (focus m sts f) (focus-Lands m sts f))
    ]

-- Every session of the list has a name.
abbrev pub Named : List SessionState → Type 0
Named [] = Unit {0}
Named (st ∷ sts) = (is_empty st.name ≡ false) × Named sts

focus_kept :
    (m : Map SessionState) (sts : List SessionState) (f : Text)
    → Named sts
    → is_empty f ≡ false
    → is_empty (focus m sts f) ≡ false
unfolding focus
focus_kept m [] f n h = h
focus_kept m (st ∷ sts) f n h = focus_kept m sts _ n.1 (
    if_split (λ (g : Text). is_empty g ≡ false)
      (st.connected && (is_empty f || (st.origin && is_guest (lookup f m)))) (λ _. n.0) λ _. h)

focus_found :
    (m : Map SessionState) (sts : List SessionState) (f : Text)
    → Named sts
    → any_of (λ (st : SessionState). st.connected) sts ≡ true
    → is_empty (focus m sts f) ≡ false
unfolding focus
focus_found m [] f n h = cc
focus_found m (st ∷ sts) f n h = elim (Bool-cases st.connected) [
  | inl c ↦ focus_kept m sts _ n.1 (
      if_split (λ (g : Text). is_empty g ≡ false)
        (st.connected && (is_empty f || (st.origin && is_guest (lookup f m)))) (λ _. n.0)
        λ e. ground (arith, c))
  | inr c ↦ focus_found m sts _ n.1 (ground arith)
]

empty_name : (t : Text) → t ≡ [] → is_empty t ≡ true
empty_name t e = rw e refl

-- The tree's focus: with no session connected it is empty, and otherwise it is the name of one of the
-- tree's connected sessions.
build_tree-focus :
    (m : Writer) (now : ℕ)
    → Named (build_tree m now).sessions
    → let t = build_tree m now in
      ((t.connected ≡ false) × (t.focused_session ≡ []))
      ⊎ ((st : SessionState) × In st t.sessions
          × ((st.connected ≡ true) × (st.name ≡ t.focused_session)))
unfolding build_tree
build_tree-focus m now n =
    let sts = sorted_sessions m.sessions in
    elim (focus-Lands m.sessions sts []) [
      | inl e ↦ elim (Bool-cases (any_of (λ (st : SessionState). st.connected) sts)) [
        | inl c ↦
            absurd (cc (focus_found m.sessions sts [] n c, empty_name (focus m.sessions sts []) e))
        | inr c ↦ inl (c, e)
      ]
      | inr found ↦ inr found
    ]
