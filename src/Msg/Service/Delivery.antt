-- ===== src/Msg/Service/Delivery.antt =====
-- When `deliver` of internal/msg/service.go types into an agent.
use herdr_expose.Msg.Store.Replies.{not-member-keep_if}
use herdr_expose.Prelude.{ℕ, ◌≡◌, refl, inl, inr, Bool, true, false, ◌&&◌, none, some, List, arith}
use herdr_expose.Prelude.Tests.{is_some, if_split, Bool-cases, Option-cases}
use herdr_expose.Prelude.Text.{bytes, text_eq, Text}
use herdr_expose.Msg.Service.{
  Listing, agents, listing_error, PromptAnswer, accepted, refused, Outcome, outcome_for, watch,
  attempt, find, prompted, record_outcome, after_update, deliver, parts, split_address, AgentInfo,
}
use herdr_expose.Msg.Store.{ok, err, Result, Request, Store, delivered, claim, release}

watch-quiet : (l : Listing) (session target : Text) → (watch l session target).typed ≡ false
unfolding watch
watch-quiet (listing_error e) session target = refl
watch-quiet (agents as_) session target = elim (Option-cases (find session target as_)) [
  | inl e ↦ rw (e, watch) refl
  | inr (a, e) ↦
      rw (e, watch)
        (if_split (λ (o : Outcome). o.typed ≡ false) (text_eq a.status (bytes "blocked"))
          (λ _. refl) λ _. refl)
]

-- The agent that a listing gives for an address is there, and neither waits on a dialog nor works.
pub IsReady : Listing → Text × Text → Type 0
IsReady (listing_error e) p = ⊥
IsReady (agents as_) p =
    (a : AgentInfo) × (find p.0 p.1 as_ ≡ some a)
    × ((text_eq a.status (bytes "blocked") ≡ false) × (text_eq a.status (bytes "working") ≡ false))

refused-quiet : (code e : Text) → (prompted (refused code e)).typed ≡ false
unfolding prompted
refused-quiet code e =
    if_split (λ (o : Outcome). o.typed ≡ false) (text_eq code (bytes "agent_blocked")) (λ _. refl)
      λ _. refl

-- What an outcome that typed something says of the attempt.
abbrev Explains : Listing → Text × Text → Outcome → Type 0
Explains l p o = o.typed ≡ true → IsReady l p × (o.status ≡ delivered)

prompted-Explains :
    (answer : PromptAnswer) → (prompted answer).typed ≡ true → (prompted answer).status ≡ delivered
prompted-Explains accepted h = unfold prompted in refl
prompted-Explains (refused code e) h = absurd (cc (h, refused-quiet code e))

found-IsReady :
    (as_ : List AgentInfo) (session target : Text) (a : AgentInfo)
    → find session target as_ ≡ some a
    → text_eq a.status (bytes "blocked") ≡ false
    → text_eq a.status (bytes "working") ≡ false
    → IsReady (agents as_) (session, target)
unfolding IsReady
found-IsReady as_ session target a e b w = (a, e, (b, w))

attempt-Explains :
    (l : Listing) (answer : PromptAnswer) (session target to : Text)
    → Explains l (session, target) (attempt l answer session target to)
unfolding attempt
attempt-Explains (listing_error e) answer session target to = λ h. cc
attempt-Explains (agents as_) answer session target to =
    elim (Option-cases (find session target as_)) [
      | inl e ↦ rw (e, attempt) (λ h. cc)
      | inr (a, e) ↦
          rw (e, attempt)
            (if_split (Explains (agents as_) (session, target)) (text_eq a.status (bytes "blocked"))
              (λ _ h. cc)
              λ b.
                if_split (Explains (agents as_) (session, target))
                  (text_eq a.status (bytes "working")) (λ _ h. cc)
                  λ w h. (found-IsReady as_ session target a e b w, prompted-Explains answer h))
    ]

pub outcome_for-typed :
    (r : Request) (p : Text × Text) (l : Listing) (answer : PromptAnswer)
    → (outcome_for r p l answer).typed ≡ true
    → (r.delivered_at ≡ none) × (IsReady l p × ((outcome_for r p l answer).status ≡ delivered))
unfolding outcome_for
outcome_for-typed r (session, target) l answer = elim (Option-cases r.delivered_at) [
  | inl e ↦ rw (e, outcome_for) (λ h. (refl, attempt-Explains l answer session target r.to h))
  | inr (t, e) ↦ rw (e, outcome_for) (λ h. absurd (cc (h, watch-quiet l session target)))
]

after_update-typed :
    (s : Store) (r : Request) (b : Bool) (x : Result (Store × Request))
    → (after_update s r b x).typed ≡ b
unfolding after_update
after_update-typed s r b (ok (s', q)) = refl
after_update-typed s r b (err e) = refl

-- A delivery types nothing unless it holds the claim; with the claim it does what its attempt did.
deliver_typed :
    (s : Store) (now : ℕ) (l : Listing) (answer : PromptAnswer) (r : Request)
    → (deliver s now l answer r).typed
      ≡ ((claim s r.id).1 && (outcome_for r (parts (split_address r.to)) l answer).typed)
unfolding deliver record_outcome
deliver_typed s now l answer r = elim (Bool-cases (claim s r.id).1) [
  | inl e ↦ simp e (after_update-typed (claim s r.id).0 r _ _)
  | inr e ↦ simp e refl
]

-- A delivery types into an agent only when the stored copy it was given was never delivered, the
-- listing names an agent of that address, and that agent is neither waiting on a dialog nor working.
pub deliver-IsReady :
    (s : Store) (now : ℕ) (l : Listing) (answer : PromptAnswer) (r : Request)
    → (deliver s now l answer r).typed ≡ true
    → (r.delivered_at ≡ none) × IsReady l (parts (split_address r.to))
deliver-IsReady s now l answer r h =
    let d = deliver_typed s now l answer r in
    let (none_yet, (ready, _)) =
      outcome_for-typed r (parts (split_address r.to)) l answer (ground (arith, d, h)) in
    (none_yet, ready)

pub settled_quiet :
    (s : Store) (now : ℕ) (l : Listing) (answer : PromptAnswer) (r : Request)
    → is_some r.delivered_at ≡ true
    → (deliver s now l answer r).typed ≡ false
settled_quiet s now l answer r h = elim (Bool-cases (deliver s now l answer r).typed) [
  | inl e ↦ absurd (cc (h, (deliver-IsReady s now l answer r e).0))
  | inr e ↦ e
]

release-free : (s : Store) (id : Text) → (claim (release s id) id).1 ≡ true
unfolding claim release
release-free s id = simp (not-member-keep_if id s.delivering) refl

after_update-free :
    (s : Store) (r : Request) (b : Bool) (x : Result (Store × Request))
    → (claim (after_update s r b x).store r.id).1 ≡ true
unfolding after_update
after_update-free s r b (ok (s', q)) = release-free s' r.id
after_update-free s r b (err e) = release-free s r.id

deliver-free :
    (s : Store) (now : ℕ) (l : Listing) (answer : PromptAnswer) (r : Request)
    → (claim s r.id).1 ≡ true
    → (claim (deliver s now l answer r).store r.id).1 ≡ true
unfolding deliver record_outcome
deliver-free s now l answer r c = simp c (after_update-free (claim s r.id).0 r _ _)

-- The claim is all that keeps an old copy from being typed again: where a delivery typed in the copy
-- `r`, a second delivery of the same copy, with the same listing and answer, types it once more,
-- on the store that the first one left.
pub stale_copy_types_again :
    (s : Store) (now now' : ℕ) (l : Listing) (answer : PromptAnswer) (r : Request)
    → (deliver s now l answer r).typed ≡ true
    → (deliver (deliver s now l answer r).store now' l answer r).typed ≡ true
stale_copy_types_again s now now' l answer r h =
    let d = deliver_typed s now l answer r in
    let held : (claim s r.id).1 ≡ true = ground (arith, d, h) in
    let typed : (outcome_for r (parts (split_address r.to)) l answer).typed ≡ true =
      ground (arith, d, h) in
    let again = deliver_typed (deliver s now l answer r).store now' l answer r in
    let free = deliver-free s now l answer r held in ground (arith, again, free, typed)
