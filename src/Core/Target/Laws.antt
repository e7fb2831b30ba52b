-- ===== src/Core/Target/Laws.antt =====
-- What the target functions of internal/core/target.go do to one another.
use herdr_expose.Prelude.{
  ℕ, suc, ◌+◌, ◌≡◌, refl, ap, ◌≢◌, ◌⊎◌, inl, inr, true, false, Option, none, some, [], ◌∷◌, ◌++◌,
  arith,
}
use herdr_expose.Prelude.Tests.{◌==◌, ==_iff, Bool-cases, Option-cases}
use herdr_expose.Prelude.Lists.{length, drop}
use herdr_expose.Prelude.Text.{Text, Lacks, has_prefix}
use herdr_expose.Core.Target.{
  target_sep, cut, split_target, join_target, strip_session, session_of, id_of, before,
}

cut-Lacks : (sep : ℕ) (s r : Text) → Lacks sep s → cut sep (s ++ (sep ∷ r)) ≡ some (s, r)
unfolding cut
cut-Lacks sep [] r h = ground arith
cut-Lacks sep (x ∷ s) r h = ground (arith, cut-Lacks sep s r h.1)

-- The parts around the first separator, or the news that there is none.
abbrev Cuts : ℕ → Text → Option (Text × Text) → Type 0
Cuts sep t none = Lacks sep t
Cuts sep t (some (l, r)) = (t ≡ l ++ (sep ∷ r)) × Lacks sep l

before-Cuts :
    (sep x : ℕ) (t : Text) (o : Option (Text × Text))
    → (x == sep) ≡ false
    → Cuts sep t o
    → Cuts sep (x ∷ t) (before x o)
before-Cuts sep x t none e h = (e, h)
before-Cuts sep x t (some (l, r)) e h = (ap (◌∷◌ x) h.0, (e, h.1))

cut-Cuts : (sep : ℕ) (t : Text) → Cuts sep t (cut sep t)
unfolding cut
cut-Cuts sep [] = tt
cut-Cuts sep (x ∷ t) = elim (Bool-cases (x == sep)) [
  | inl hit ↦ rw (hit, (==_iff x sep).0 hit) (refl, tt)
  | inr miss ↦ rw miss (before-Cuts sep x t (cut sep t) miss (cut-Cuts sep t))
]

-- Joining a session and an id and splitting the target gives both back, where neither is empty and
-- the session's name holds no separator.
pub split_target-join_target :
    (session id : Text)
    → session ≢ []
    → id ≢ []
    → Lacks target_sep session
    → split_target (join_target session id) ≡ (session, id)
unfolding split_target join_target
split_target-join_target [] id p q h = absurd (p refl)
split_target-join_target (x ∷ s) [] p q h = absurd (q refl)
split_target-join_target (x ∷ s) (y ∷ id) p q h =
    ground (arith, cut-Lacks target_sep (x ∷ s) (y ∷ id) h)

-- Splitting keeps every byte: a target without a separator has no session, and any other is its
-- session, a separator and its id.
split_target_total :
    (target : Text)
    → (Lacks target_sep target × (split_target target ≡ ([], target)))
      ⊎ ((target ≡ session_of target ++ (target_sep ∷ id_of target))
          × Lacks target_sep (session_of target))
unfolding session_of id_of split_target
split_target_total target = elim (Option-cases (cut target_sep target)) [
  | inl e ↦ inl (rw e at (cut-Cuts target_sep target), rw (e, split_target))
  | inr ((l, r), e) ↦
      let c : Cuts target_sep target (some (l, r)) = rw e at (cut-Cuts target_sep target) in
      inr (rw (e, split_target, session_of, id_of) c)
]

-- Two sessions with ordinary names never share a target, though their ids repeat.
join_target_injective :
    (s t i j : Text)
    → s ≢ []
    → t ≢ []
    → i ≢ []
    → j ≢ []
    → Lacks target_sep s
    → Lacks target_sep t
    → join_target s i ≡ join_target t j
    → (s ≡ t) × (i ≡ j)
join_target_injective s t i j hs ht hi hj ls lt e =
    let p : split_target (join_target s i) ≡ (s, i) = split_target-join_target s i hs hi ls in
    let q : split_target (join_target t j) ≡ (t, j) = split_target-join_target t j ht hj lt in
    let pair : ◌≡◌ {A = Text × Text} (s, i) (t, j) = cc (p, q, ap split_target e) in
    (ap (λ (w : Text × Text). w.0) pair, ap (λ (w : Text × Text). w.1) pair)

strip_prefix : (s id : Text) → has_prefix (s ++ (target_sep ∷ id)) (s ++ (target_sep ∷ [])) ≡ true
unfolding has_prefix
strip_prefix [] id = refl
strip_prefix (x ∷ s) id = ground (arith, strip_prefix s id)

strip_drop : (s id : Text) → drop (length s + 1) (s ++ (target_sep ∷ id)) ≡ id
strip_drop [] id = refl
strip_drop (x ∷ s) id =
    let e : length (x ∷ s) + 1 ≡ suc (length s + 1) = omega arith in rw e (strip_drop s id)

-- Stripping a session undoes joining it.
strip_session-join_target :
    (session id : Text)
    → session ≢ []
    → id ≢ []
    → strip_session session (join_target session id) ≡ id
unfolding strip_session join_target
strip_session-join_target [] id p q = absurd (p refl)
strip_session-join_target (x ∷ s) [] p q = absurd (q refl)
strip_session-join_target (x ∷ s) (y ∷ id) p q =
    rw (strip_prefix (x ∷ s) (y ∷ id), strip_drop (x ∷ s) (y ∷ id)) refl
