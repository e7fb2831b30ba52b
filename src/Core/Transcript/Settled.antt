-- ===== src/Core/Transcript/Settled.antt =====
-- Which screens a subscriber of internal/core/transcript.go is picked for.
use herdr_expose.Prelude.{
  ℕ, ◌≡◌, refl, ap, ◌∙◌, inl, inr, Bool, true, false, not, ◌&&◌, ◌||◌, Option, none, some, List, [],
  ◌∷◌, arith,
}
use herdr_expose.Prelude.Tests.{if_split, leb, ◌==◌, if◌then◌else◌, Bool-cases}
use herdr_expose.Prelude.Text.{Text, text_eq}
use herdr_expose.Prelude.Map.{Map, lookup, lookup-insert_self, Unique}
use herdr_expose.Core.Pollers.{
  subs_of, changes, claim, after_claim, claim_state, claim_due, claim-Unique,
}
use herdr_expose.Core.Transcript.{
  TranscriptSub, TranscriptPoller, Flavours, flavour, pick, passed, delivered, dwell,
  is_working_status, is_held,
}

abbrev pub Poll : Type 0
Poll = Flavours Text × Text

abbrev pub last_picked : TranscriptSub → Option ℕ
last_picked sub = if sub.sent then some sub.hash else none

abbrev pub onto : Option TranscriptSub → List ℕ → List ℕ
onto none xs = xs
onto (some sub) xs = sub.hash ∷ xs

abbrev pub last_prose : Text → TranscriptPoller → Text
last_prose target p = elim (lookup target p.last_stable) [ none ↦ [] | some t ↦ t ]

module _ (hash : Text → ℕ) where
  -- The screens that a subscriber may be shown: all of its flavour, or, where it waits for the agent to
  -- settle, those that are read while the agent is not working and whose prose repeats the poll before.
  abbrev pub visible : Bool → ℕ → Text → List Poll → List ℕ
  visible settle level before [] = []
  visible settle level before ((ids, state) ∷ polls) =
      let rest = visible settle level ids.prose polls in
      if settle && (is_working_status state || not (text_eq before ids.prose))
      then rest
      else hash (flavour level ids) ∷ rest

  -- The screens that a subscriber of a target is picked for, over polls of the target.
  abbrev pub picked_for : Text → Text → List Poll → TranscriptPoller → List ℕ
  picked_for target s [] p = []
  picked_for target s ((ids, state) ∷ polls) p =
      let (q, out) = pick hash target ids state p in
      onto (lookup s out) (picked_for target s polls q)

  module _ (target : Text) (ids : Flavours Text) (state : Text) (p : TranscriptPoller) where
    abbrev still : Bool
    still = leb 1 (dwell target ids.prose p)

    still_text : still ≡ text_eq (last_prose target p) ids.prose
    still_text =
        if_split (λ n. leb 1 n ≡ text_eq (last_prose target p) ids.prose)
          (text_eq (last_prose target p) ids.prose) (λ t. rw t (ground arith)) λ t. rw t refl

    abbrev skips : TranscriptSub → Bool
    skips = passed hash ids (is_working_status state) still

    pick_subs :
        (s : Text) (m : Map TranscriptSub)
        → lookup target p.subs ≡ some m
        → (lookup target (pick hash target ids state p).0.subs
            ≡ some (claim skips (delivered hash ids) m).0)
          × (lookup s (pick hash target ids state p).1
              ≡ lookup s (claim skips (delivered hash ids) m).1)
          × (last_prose target (pick hash target ids state p).0 ≡ ids.prose)
    unfolding pick
    pick_subs s m h =
        let same : subs_of target p.subs ≡ m = rw (subs_of, h) refl in
        (
          rw (h, same) (lookup-insert_self target (claim skips (delivered hash ids) m).0 p.subs),
          rw same refl,
          rw (last_prose, lookup-insert_self target ids.prose p.last_stable) refl,
        )

    after_flavour :
        (sub : TranscriptSub)
        → ((after_claim skips (delivered hash ids) sub).settle ≡ sub.settle)
          × ((after_claim skips (delivered hash ids) sub).level ≡ sub.level)
    after_flavour sub = elim (Bool-cases (skips sub)) [
      | inl t ↦ (rw t refl, rw t refl)
      | inr t ↦ (rw t refl, rw t refl)
    ]

    -- What one poll adds to the screens that a subscriber is picked for.
    picked_step :
        (sub : TranscriptSub) (xs : List ℕ)
        → onto
            (if skips sub then none else some (delivered hash ids sub))
            (changes (last_picked (after_claim skips (delivered hash ids) sub)) xs)
          ≡ changes (last_picked sub) (
              if is_held (is_working_status state) still sub
              then xs
              else hash (flavour sub.level ids) ∷ xs)
    picked_step sub xs = elim (Bool-cases (is_held (is_working_status state) still sub)) [
      | inl t ↦ let e : skips sub ≡ true = rw t refl in rw (e, t) refl
      | inr t ↦ elim (Bool-cases sub.sent) [
        | inl u ↦ elim (Bool-cases (sub.hash == hash (flavour sub.level ids))) [
          | inl v ↦ let e : skips sub ≡ true = rw (t, u, v) refl in rw (e, t, u, v) refl
          | inr v ↦ let e : skips sub ≡ false = rw (t, u, v) refl in rw (e, t, u, v) refl
        ]
        | inr u ↦ let e : skips sub ≡ false = rw (t, u) refl in rw (e, t, u) refl
      ]
    ]

  -- A subscriber of the raw, the cleaned or the folded transcript is picked for each screen of its
  -- flavour that differs from the one it was picked for last. One that waits for the agent to settle
  -- is picked for those only that are read while the agent is not working and whose folded text
  -- repeats the poll before: it gets no half-painted screen, and it does get the one that stays.
  pub picked_for-visible :
      (target s : Text) (polls : List Poll) (p : TranscriptPoller) (m : Map TranscriptSub)
      (sub : TranscriptSub)
      → lookup target p.subs ≡ some m
      → Unique m
      → lookup s m ≡ some sub
      → picked_for target s polls p
        ≡ changes (last_picked sub) (visible sub.settle sub.level (last_prose target p) polls)
  picked_for-visible target s [] p m sub hp u hs = refl
  picked_for-visible target s ((ids, state) ∷ polls) p m sub hp u hs =
      let (e1, e2, e3) = pick_subs target ids state p s m hp in
      let q = (pick hash target ids state p).0 in
      let next = after_claim (skips target ids state p) (delivered hash ids) sub in
      let (f1, f2) = after_flavour target ids state p sub in
      let ih : picked_for target s polls q
          ≡ changes (last_picked next) (visible sub.settle sub.level ids.prose polls) =
        picked_for-visible target s polls q
          (claim (skips target ids state p) (delivered hash ids) m).0 next e1
          (claim-Unique (skips target ids state p) (delivered hash ids) m u)
          (claim_state (skips target ids state p) (delivered hash ids) s sub m hs)
        ∙ (λ i. changes (last_picked next) (visible (f1 i) (f2 i) (e3 i) polls)) in
      rw
        (picked_for, e2, claim_due (skips target ids state p) (delivered hash ids) s sub m u hs, ih)
        (picked_step target ids state p sub (visible sub.settle sub.level ids.prose polls)
          ∙ ap
              (λ b. changes (last_picked sub) (
                if sub.settle && (is_working_status state || not b)
                then visible sub.settle sub.level ids.prose polls
                else hash (flavour sub.level ids) ∷ visible sub.settle sub.level ids.prose polls))
              (still_text target ids state p))
