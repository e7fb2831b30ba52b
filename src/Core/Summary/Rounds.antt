-- ===== src/Core/Summary/Rounds.antt =====
-- Which screens a subscriber of internal/core/hub.go's summary poller is sent.
use herdr_expose.Prelude.{ℕ, ◌≡◌, refl, inl, inr, Option, none, some, List, [], ◌∷◌, arith}
use herdr_expose.Prelude.Tests.{◌==◌, if◌then◌else◌, Bool-cases, is_some}
use herdr_expose.Prelude.Text.{Text, text_eq_iff}
use herdr_expose.Prelude.Map.{Map, keys, lookup, insert, lookup-insert_self, Unique}
use herdr_expose.Prelude.Text.{member}
use herdr_expose.Core.Summary.{is_shown, shown, Subs, SummarySub, recipients}
use herdr_expose.Core.Pollers.{changes, claim, after_claim, claim_state, claim_due, claim-Unique}

-- What a subscriber was sent last.
abbrev pub last_sent : SummarySub → Option ℕ
last_sent st = if st.sent then some st.hash else none

-- The screens that a subscriber of a target is sent when the target reads as these, one a round.
abbrev pub sent_to : Text → Text → List ℕ → Subs → List ℕ
sent_to target s [] p = []
sent_to target s (x ∷ xs) p =
    let (q, out) = recipients target x p in
    if member s out then x ∷ sent_to target s xs q else sent_to target s xs q

recipients_at :
    (target : Text) (x : ℕ) (p : Subs) (m : Map SummarySub)
    → lookup target p ≡ some m
    → recipients target x p ≡ (
      insert target (claim (is_shown x) (shown x) m).0 p,
      keys (claim (is_shown x) (shown x) m).1,
    )
unfolding recipients
recipients_at target x p m h = rw (recipients, h) refl

member-keys : {V : Type 0} (s : Text) (m : Map V) → member s (keys m) ≡ is_some (lookup s m)
unfolding member lookup
member-keys s [] = refl
member-keys s ((j, v) ∷ m) = ground (arith, member-keys s m, text_eq_iff j s, text_eq_iff s j)

tail :
    (x : ℕ) (xs : List ℕ) (st : SummarySub)
    → (if is_some (if is_shown x st then none else some (shown x st))
        then x ∷ changes (last_sent (after_claim (is_shown x) (shown x) st)) xs
        else changes (last_sent (after_claim (is_shown x) (shown x) st)) xs)
      ≡ changes (last_sent st) (x ∷ xs)
tail x xs st = elim (Bool-cases st.sent) [
  | inl t ↦ elim (Bool-cases (st.hash == x)) [ inl e ↦ rw (t, e) refl | inr e ↦ rw (t, e) refl ]
  | inr t ↦ rw t refl
]

-- Over rounds in which a target reads as these screens, a subscriber is sent just those that differ
-- from the one it was sent last, and the first where it was sent none: no screen twice in a row, and
-- no change missed.
pub sent_to-changes :
    (target s : Text) (sums : List ℕ) (p : Subs) (m : Map SummarySub) (st : SummarySub)
    → lookup target p ≡ some m
    → Unique m
    → lookup s m ≡ some st
    → sent_to target s sums p ≡ changes (last_sent st) sums
sent_to-changes target s [] p m st hp u hs = refl
sent_to-changes target s (x ∷ xs) p m st hp u hs =
    let c = claim (is_shown x) (shown x) m in
    rw
      (
        sent_to,
        recipients_at target x p m hp,
        member-keys s c.1,
        claim_due (is_shown x) (shown x) s st m u hs,
        sent_to-changes target s xs (insert target c.0 p) c.0
            (after_claim (is_shown x) (shown x) st) (lookup-insert_self target c.0 p)
            (claim-Unique (is_shown x) (shown x) m u)
            (claim_state (is_shown x) (shown x) s st m hs),
      )
      (tail x xs st)
