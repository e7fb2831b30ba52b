-- ===== src/Msg/Store/Replies.antt =====
-- Claims and replies of internal/msg/store.go.
use herdr_expose.Prelude.Lists.{keep_if}
use herdr_expose.Prelude.Map.{lookup}
use herdr_expose.Prelude.{ℕ, ◌≡◌, refl, inl, inr, true, false, not, some, List, [], ◌∷◌, arith}
use herdr_expose.Prelude.Tests.{Bool-cases}
use herdr_expose.Prelude.Text.{In-member, text_eq, member, Text}
use herdr_expose.Msg.Store.{
  Request, Response, Store, err, already_replied, claim, release, reply, replied_to, valid_id,
}

pub not-member-keep_if :
    (id : Text) (ids : List Text)
    → member id (keep_if (λ (j : Text). not (text_eq id j)) ids) ≡ false
unfolding member
not-member-keep_if id [] = refl
not-member-keep_if id (j ∷ ids) = elim (Bool-cases (text_eq id j)) [
  | inl e ↦ rw e (not-member-keep_if id ids)
  | inr e ↦ rw e (rw e (not-member-keep_if id ids))
]

pub member_head : (id : Text) (ids : List Text) → member id (id ∷ ids) ≡ true
member_head id ids = In-member id (id ∷ ids) (inl refl)

-- A claim is exclusive until it is given up: once one caller holds the claim of an id, a second is
-- refused and changes nothing, and after the release the next caller gets it.
claim_exclusive :
    (s : Store) (id : Text)
    → (claim s id).1 ≡ true
    → let held = (claim s id).0 in
      (claim held id ≡ (held, false)) × ((claim (release held id) id).1 ≡ true)
unfolding claim release
claim_exclusive s id h = elim (Bool-cases (member id s.delivering)) [
  | inl e ↦ absurd (ground arith)
  | inr e ↦
      simp (e, member_head id s.delivering, not-member-keep_if id (id ∷ s.delivering)) (refl, refl)
]

-- The response of an id is written once: where there is one, a reply is refused.
reply_once :
    (s : Store) (now : ℕ) (id from body : Text) {r : Request} {p : Response}
    → valid_id id ≡ true
    → lookup id s.requests ≡ some r
    → lookup id s.responses ≡ some p
    → reply s now id from body ≡ err already_replied
unfolding reply
reply_once s now id from body {r} {p} v e f = rw (v, replied_to, e, f) refl
