-- ===== src/Msg/Service.antt =====
-- internal/msg/service.go: sending a request and delivering it to an agent. What Herdr answers, to the
-- listing of agents and to a prompt, is an argument of each attempt.
pub mod Delivery
pub mod Retry
pub mod Memory
pub mod Once
use herdr_expose.Prelude.Lists.{is_empty}
use herdr_expose.Core.Target.{target_sep, cut}
use herdr_expose.Msg.Store.{
  ok, err, queued, too_many_hops, empty_message, release, create, blocked, replied, bad_address,
  update, claim, status_eq, Store, Status, Result, delivered, Request,
}
use herdr_expose.Prelude.{
  ℕ, zero, suc, ◌+◌, ◌-◌, ◌*◌, ◌/◌, ◌%◌, ◌^◌, ◌≤◌, ◌<◌, ◌≡◌, refl, sym, ap, ap₂, subst, ◌∙◌, ◌≢◌,
  ◌↔◌, ◌⊎◌, inl, inr, Bool, true, false, not, ◌&&◌, ◌||◌, Option, none, some, List, [], ◌∷◌, ◌++◌,
  map, append-nil, append_assoc, arith,
}
use herdr_expose.Prelude.Tests.{
  is_some, ltb, leb, ◌==◌, ==_iff, if◌then◌else◌, Bool-cases, Option-cases,
}
use herdr_expose.Prelude.Text.{trim_space, contains, bytes, text_eq, Text}

abbrev pub max_hops : ℕ
max_hops = 8

unfoldable pub checked_address : Option (Text × Text) → Result (Text × Text)
checked_address none = err bad_address
checked_address (some (session, target)) =
    if is_empty session || (is_empty target || contains target (target_sep ∷ []))
    then err bad_address
    else ok (session, target)

-- `strings.Cut` is the `cut` of the targets.
unfoldable pub split_address : Text → Result (Text × Text)
unfolding checked_address
split_address addr = checked_address (cut target_sep addr)

-- The three tests of `Send`.
unfoldable pub check_send : Result (Text × Text) → Text → ℕ → Result (Unit {0})
check_send (err e) body hops = err e
check_send (ok p) body hops =
    if is_empty (trim_space body)
    then err empty_message
    else if ltb max_hops hops
    then err too_many_hops
    else ok tt

-- `Send` up to its first attempt at delivery.
unfoldable pub send_created :
    Result (Unit {0}) → Store → ℕ → Text → Text → Text → Text → ℕ → Result (Store × Request)
send_created (err e) s now id from to body hops = err e
send_created (ok u) s now id from to body hops = ok (create s now id from to body hops)

unfoldable pub send : Store → ℕ → Text → Text → Text → Text → ℕ → Result (Store × Request)
unfolding send_created check_send split_address
send s now id from to body hops =
    send_created (check_send (split_address to) body hops) s now id from to body hops

pub record AgentInfo : Type 0 where
  pub session : Text
  pub name : Text
  pub pane_id : Text
  pub status : Text

pub data Listing : Type 0 where
  agents : List AgentInfo → Listing
  listing_error : Text → Listing

pub data PromptAnswer : Type 0 where
  accepted : PromptAnswer
  refused : Text → Text → PromptAnswer

-- What an attempt ends with, and whether it handed the text to Herdr and Herdr took it.
pub record Outcome : Type 0 where
  pub status : Status
  pub error : Text
  pub typed : Bool

unfoldable pub find : Text → Text → List AgentInfo → Option AgentInfo
find session target [] = none
find session target (a ∷ as_) =
    if text_eq a.session session && (text_eq a.name target || text_eq a.pane_id target)
    then some a
    else find session target as_

abbrev pub quiet : Status → Text → Outcome
quiet st e = record { status = st; error = e; typed = false }

unfoldable pub watch : Listing → Text → Text → Outcome
unfolding find
watch (listing_error e) session target = quiet delivered []
watch (agents as_) session target = elim (find session target as_) [
  | none ↦ quiet delivered (bytes "target has exited; a reply may never come")
  | some a ↦
      if text_eq a.status (bytes "blocked")
      then quiet blocked
          (bytes "delivered, but the target is now waiting on a dialog; a human must answer it")
      else quiet delivered []
]

unfoldable pub prompted : PromptAnswer → Outcome
prompted accepted = record { status = delivered; error = []; typed = true }
prompted (refused code e) =
    if text_eq code (bytes "agent_blocked") then quiet blocked e else quiet queued e

unfoldable pub attempt : Listing → PromptAnswer → Text → Text → Text → Outcome
unfolding find prompted
attempt (listing_error e) answer session target to = quiet queued e
attempt (agents as_) answer session target to = elim (find session target as_) [
  | none ↦ quiet queued (bytes "no agent " ++ (to ++ bytes " yet"))
  | some a ↦
      if text_eq a.status (bytes "blocked")
      then quiet blocked (bytes "target is waiting on a dialog; a human must answer it")
      else if text_eq a.status (bytes "working")
      then quiet queued (bytes "target is busy; delivers when it is idle")
      else prompted answer
]

-- The session and target of a request; an address that does not split gives two empty ones.
abbrev pub parts : Result (Text × Text) → Text × Text
parts (ok p) = p
parts (err e) = ([], [])

unfoldable pub outcome_for : Request → Text × Text → Listing → PromptAnswer → Outcome
unfolding watch attempt
outcome_for r (session, target) l answer = elim r.delivered_at [
  | none ↦ attempt l answer session target r.to
  | some t ↦ watch l session target
]

-- The function that `deliver` gives to `Update`.
unfoldable pub recorded : Outcome → ℕ → Request → Request
recorded o now q = if status_eq q.status replied then q else record q {
  attempts = if is_some q.delivered_at then q.attempts else q.attempts + 1;
  delivered_at =
      if is_some q.delivered_at
      then q.delivered_at
      else if status_eq o.status delivered
      then some now
      else none;
  status = o.status;
  error = o.error;
}

pub record Delivered : Type 0 where
  pub store : Store
  pub result : Request
  pub typed : Bool

unfoldable pub after_update : Store → Request → Bool → Result (Store × Request) → Delivered
after_update s r typed (ok (s', q)) = record { store = release s' r.id; result = q; typed = typed }
after_update s r typed (err e) = record { store = release s r.id; result = r; typed = typed }

-- The end of an attempt, on the store as it is by then: the update and the release.
unfoldable pub record_outcome : Store → ℕ → Request → Outcome → Delivered
unfolding after_update recorded
record_outcome s now r o = after_update s r o.typed (update s now r.id (recorded o now))

-- One attempt with a copy of a request, from its claim to its release.
unfoldable pub deliver : Store → ℕ → Listing → PromptAnswer → Request → Delivered
unfolding outcome_for record_outcome split_address
deliver s now l answer r =
    let held = claim s r.id in
    let o = outcome_for r (parts (split_address r.to)) l answer in
    if held.1
    then record_outcome held.0 now r o
    else record { store = s; result = r; typed = false }
