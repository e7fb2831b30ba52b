-- ===== src/Core/Pollers.antt =====
-- internal/core/hub.go and transcript.go: what the two pollers share, the subscribers of each target
-- by connection, and the loop that picks those that a screen is due to. A connection is named by a text.
use herdr_expose.Prelude.{
  ℕ, ◌≡◌, refl, subst, inl, inr, Bool, false, Option, none, some, List, [], ◌∷◌,
}
use herdr_expose.Prelude.Tests.{◌==◌, if◌then◌else◌, Bool-cases, is_some, is_some-false}
use herdr_expose.Prelude.Lists.{is_empty}
use herdr_expose.Prelude.Text.{Text, text_eq, text_eq_iff}
use herdr_expose.Prelude.Map.{Map, lookup, insert, delete, Unique}

module _ {ℓ} {V : Type ℓ} where
  abbrev pub subs_of : Text → Map (Map V) → Map V
  subs_of target p = elim (lookup target p) [ none ↦ [] | some m ↦ m ]

  -- The subscriber of a target goes, and the target with its last one.
  unfoldable pub unsubscribe : Text → Text → Map (Map V) → Map (Map V)
  unsubscribe target s p = elim (lookup target p) [
    | none ↦ p
    | some m ↦ if is_empty (delete s m) then delete target p else insert target (delete s m) p
  ]

  unfoldable pub unsubscribe_all : Text → Map (Map V) → Map (Map V)
  unsubscribe_all s [] = []
  unsubscribe_all s ((target, m) ∷ p) =
      let rest = unsubscribe_all s p in
      if is_empty (delete s m) then rest else (target, delete s m) ∷ rest

  module _ (passes : V → Bool) (mark : V → V) where
    -- The subscribers that a screen is not due to stay as they are, the others are marked and picked.
    unfoldable pub claim : Map V → Map V × Map V
    claim [] = ([], [])
    claim ((s, v) ∷ m) =
        let (rest, out) = claim m in
        if passes v then ((s, v) ∷ rest, out) else ((s, mark v) ∷ rest, (s, mark v) ∷ out)

    abbrev pub after_claim : V → V
    after_claim v = if passes v then v else mark v

    pub claim_state :
        (s : Text) (v : V) (m : Map V)
        → lookup s m ≡ some v
        → lookup s (claim m).0 ≡ some (after_claim v)
    unfolding claim lookup
    claim_state s v [] h = absurd (cc (h))
    claim_state s v ((j, w) ∷ m) h = elim (Bool-cases (text_eq j s)) [
      | inl t ↦
          let e : some w ≡ some v = rw t at h in
          let held : w ≡ v = cc (e) in
          subst (λ x. lookup s (claim ((j, w) ∷ m)).0 ≡ some (after_claim x)) held
            (elim (Bool-cases (passes w)) [ inl q ↦ rw (q, t) refl | inr q ↦ rw (q, t) refl ])
      | inr t ↦
          let ih = claim_state s v m (rw t at h) in
          elim (Bool-cases (passes w)) [ inl q ↦ rw (q, t) ih | inr q ↦ rw (q, t) ih ]
    ]

    claim_absent :
        (s : Text) (m : Map V)
        → is_some (lookup s m) ≡ false
        → (is_some (lookup s (claim m).0) ≡ false) × (is_some (lookup s (claim m).1) ≡ false)
    unfolding claim lookup
    claim_absent s [] h = (refl, refl)
    claim_absent s ((j, w) ∷ m) h = elim (Bool-cases (text_eq j s)) [
      | inl t ↦ absurd (cc (rw t at h))
      | inr t ↦
          let ih = claim_absent s m (rw t at h) in
          elim (Bool-cases (passes w)) [ inl q ↦ rw (q, t) ih | inr q ↦ rw (q, t) ih ]
    ]

    pub claim-Unique : (m : Map V) → Unique m → Unique (claim m).0
    unfolding claim
    claim-Unique [] u = tt
    claim-Unique ((j, w) ∷ m) (a, u) = elim (Bool-cases (passes w)) [
      | inl q ↦ rw q ((claim_absent j m a).0, claim-Unique m u)
      | inr q ↦ rw q ((claim_absent j m a).0, claim-Unique m u)
    ]

    pub claim_due :
        (s : Text) (v : V) (m : Map V)
        → Unique m
        → lookup s m ≡ some v
        → lookup s (claim m).1 ≡ (if passes v then none else some (mark v))
    unfolding claim lookup
    claim_due s v [] u h = absurd (cc (h))
    claim_due s v ((j, w) ∷ m) (a, u) h = elim (Bool-cases (text_eq j s)) [
      | inl t ↦
          let e : some w ≡ some v = rw t at h in
          let held : w ≡ v = cc (e) in
          let same : j ≡ s = (text_eq_iff j s).0 t in
          let gone : is_some (lookup s (claim m).1) ≡ false =
            (claim_absent s m (subst (λ x. is_some (lookup x m) ≡ false) same a)).1 in
          subst (λ x. lookup s (claim ((j, w) ∷ m)).1 ≡ (if passes x then none else some (mark x)))
            held
            (elim (Bool-cases (passes w)) [
              | inl q ↦ rw q (is_some-false (lookup s (claim m).1) gone)
              | inr q ↦ rw (q, t) refl
            ])
      | inr t ↦
          let ih = claim_due s v m u (rw t at h) in
          elim (Bool-cases (passes w)) [ inl q ↦ rw q ih | inr q ↦ rw (q, t) ih ]
    ]

-- The screens of a list that differ from the one before, the first of which is `last`.
abbrev pub changes : Option ℕ → List ℕ → List ℕ
changes last [] = []
changes none (x ∷ xs) = x ∷ changes (some x) xs
changes (some y) (x ∷ xs) = if y == x then changes (some y) xs else x ∷ changes (some x) xs
