-- ===== src/Core/Summary.antt =====
-- internal/core/hub.go: `summaryPoller`, which reads each visible tile once for all its subscribers.
-- The hash of a screen is a number.
pub mod Rounds
use herdr_expose.Prelude.{
  ℕ, zero, suc, ◌+◌, ◌-◌, ◌*◌, ◌/◌, ◌%◌, ◌^◌, ◌≤◌, ◌<◌, ◌≡◌, refl, sym, ap, ap₂, subst, ◌∙◌, ◌≢◌,
  ◌↔◌, ◌⊎◌, inl, inr, Bool, true, false, not, ◌&&◌, ◌||◌, Option, none, some, List, [], ◌∷◌, ◌++◌,
  map, append-nil, append_assoc, arith,
}
use herdr_expose.Prelude.Tests.{
  if_split, ltb, leb, ◌==◌, ==_iff, if◌then◌else◌, Bool-cases, Option-cases, is_some, or_zero,
}
use herdr_expose.Prelude.Lists.{All, In, snoc, is_empty, length, take, drop, any_of, keep_if}
use herdr_expose.Core.Pollers.{claim, subs_of}
use herdr_expose.Prelude.Text.{Text, bytes, text_eq, text_eq_iff, text_eq_refl}
use herdr_expose.Prelude.Map.{
  Map, keys, lookup, insert, delete, lookup-insert, lookup-delete, lookup-insert_self,
  lookup-delete_self, Unique, insert-Unique, delete-Unique,
}

pub record SummarySub : Type 0 where
  pub hash : ℕ
  pub sent : Bool

abbrev pub Subs : Type 0
Subs = Map (Map SummarySub)

abbrev unsent : SummarySub
unsent = record { hash = 0; sent = false }

unfoldable pub subscribe : Text → Text → Subs → Subs
subscribe target s p =
    let m = subs_of target p in
    if is_some (lookup s m) then insert target m p else insert target (insert s unsent m) p

abbrev pub is_shown : ℕ → SummarySub → Bool
is_shown sum st = st.sent && st.hash == sum

abbrev pub shown : ℕ → SummarySub → SummarySub
shown sum st = record { hash = sum; sent = true }

-- Who has not been sent this screen, each marked as having it.
unfoldable pub recipients : Text → ℕ → Subs → Subs × List Text
recipients target sum p = elim (lookup target p) [
  | none ↦ (p, [])
  | some m ↦ let (m', out) = claim (is_shown sum) (shown sum) m in (insert target m' p, keys out)
]

-- A frame of a round: the subscriber, the target and the screen.
abbrev pub SummaryFrame : Type 0
SummaryFrame = Text × Text × Text

abbrev addressed : Text → Text → List Text → List SummaryFrame
addressed target text [] = []
addressed target text (s ∷ ss) = (s, target, text) ∷ addressed target text ss

-- One round over the targets; what a target reads as is `none` where it cannot be resolved or read.
unfoldable pub summary_round :
    (Text → Option Text) → (Text → ℕ) → List Text → Subs → Subs × List SummaryFrame
unfolding recipients
summary_round read hash [] p = (p, [])
summary_round read hash (target ∷ targets) p = elim (read target) [
  | none ↦ summary_round read hash targets p
  | some text ↦
      let (p1, ss) = recipients target (hash text) p in
      let (p2, out) = summary_round read hash targets p1 in (p2, addressed target text ss ++ out)
]
