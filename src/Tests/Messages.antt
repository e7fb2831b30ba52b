-- ===== src/Tests/Messages.antt =====
-- Messages between agents at concrete inputs.
use herdr_expose.Prelude.Lists.{In}
use herdr_expose.Msg.Service.Retry.{waiting, deliver_all, round-IsDue, IsDue, round}
use herdr_expose.Core.Target.{cut}
use herdr_expose.Msg.Store.Sweep.{sweep-keeps_waiting}
use herdr_expose.Msg.Service.Delivery.{deliver-IsReady, stale_copy_types_again, IsReady}
use herdr_expose.Msg.Service.Once.{typed_once, Step, Steps}
use herdr_expose.Msg.Service.{
  after_update, record_outcome, agents, recorded, recorded, checked_address, prompted, find,
  attempt, outcome_for, split_address, parts, accepted, deliver, Listing,
}
use herdr_expose.Prelude.Map.{insert, lookup}
use herdr_expose.Msg.Store.{
  wanted, listing, list, remove_excess, expire, expire_all, ids_locked, queued, update,
  updated_with, valid_id, release, status_eq, Status, sweep, Request, claim, Store,
}
use herdr_expose.Prelude.{inl, inl, ◌≡◌, refl, true, false, none, some, [], ◌∷◌, arith}
use herdr_expose.Prelude.Text.{sort_texts, has_prefix, contains, member, text_eq, bytes}

abbrev question : Request
question = record {
  id = bytes "r-1700000000000-ab12";
  from = bytes "work/a";
  to = bytes "work/b";
  body = bytes "hi";
  hops = 0;
  created = 10;
  updated = 10;
  status = queued;
  error = [];
  attempts = 0;
  delivered_at = none;
}

abbrev mailbox : Store
mailbox = record {
  keep = 100;
  expiry = 86400000;
  requests = (bytes "r-1700000000000-ab12", question) ∷ [];
  responses = [];
  delivering = [];
}

abbrev idle_agents : Listing
idle_agents = agents (
    record {
      session = bytes "work";
      name = bytes "b";
      pane_id = bytes "w1:p1";
      status = bytes "idle";
    }
    ∷ [])

question_typed : (deliver mailbox 20 idle_agents accepted question).typed ≡ true
unfolding deliver record_outcome claim member text_eq outcome_for attempt find prompted
    split_address checked_address cut contains has_prefix update valid_id updated_with recorded
    after_update lookup
question_typed = refl

abbrev noted_mailbox : Store
noted_mailbox =
    (record_outcome (claim mailbox question.id).0 20 question
      (outcome_for question (parts (split_address question.to)) idle_agents accepted)).store

abbrev mailbox_later : Store
mailbox_later = (claim (sweep noted_mailbox 30) question.id).0

abbrev question_then : Request
question_then = record question {
  updated = 20;
  status = Status.delivered;
  attempts = 1;
  delivered_at = some 20;
}

question_attempted :
    (outcome_for question (parts (split_address question.to)) idle_agents accepted).typed ≡ true
unfolding text_eq outcome_for attempt find prompted split_address checked_address cut contains
    has_prefix
question_attempted = refl

question_stored : lookup question.id mailbox_later.requests ≡ some question_then
unfolding claim member text_eq outcome_for attempt find prompted split_address checked_address cut
    contains has_prefix record_outcome update valid_id updated_with recorded after_update release
    lookup insert sweep ids_locked sort_texts expire_all expire remove_excess status_eq
question_stored = refl

typed_once_example : (deliver mailbox_later 40 idle_agents accepted question_then).typed ≡ false
unfolding valid_id text_eq
typed_once_example =
    typed_once (claim mailbox question.id).0 mailbox_later mailbox_later 20 40 idle_agents
      idle_agents accepted accepted question question_then refl question_attempted
      (Steps.then_ (Steps.then_ (Steps.here noted_mailbox) (Step.swept 30 noted_mailbox))
        (Step.claimed question.id (sweep noted_mailbox 30)))
      question_stored refl

deliver-IsReady_example :
    (question.delivered_at ≡ none) × IsReady idle_agents (parts (split_address question.to))
deliver-IsReady_example = deliver-IsReady mailbox 20 idle_agents accepted question question_typed

stale_copy_types_again_example :
    (deliver
      (deliver mailbox 20 idle_agents accepted question).store
      40
      idle_agents
      accepted
      question).typed
    ≡ true
stale_copy_types_again_example =
    stale_copy_types_again mailbox 20 40 idle_agents accepted question question_typed

sweep-keeps_waiting_example :
    (lookup (bytes "r-1700000000000-ab12") (sweep mailbox 50).requests ≡ some question)
    × (lookup (bytes "r-1700000000000-ab12") (sweep mailbox 50).responses
        ≡ lookup (bytes "r-1700000000000-ab12") mailbox.responses)
unfolding lookup text_eq
sweep-keeps_waiting_example =
    sweep-keeps_waiting mailbox 50 (bytes "r-1700000000000-ab12") question refl
      (record { waits = refl; fresh = omega arith })

question_in_round : In question (round mailbox 20 idle_agents (λ r. accepted)).1
unfolding round sweep ids_locked sort_texts expire_all expire remove_excess waiting list listing
    wanted status_eq deliver_all deliver record_outcome claim member text_eq outcome_for attempt
    find prompted split_address checked_address cut contains has_prefix update valid_id updated_with
    recorded after_update lookup insert release
question_in_round = inl refl

round-IsDue_example : In question (waiting (sweep mailbox 20)) × IsDue idle_agents question
round-IsDue_example = round-IsDue mailbox 20 idle_agents (λ r. accepted) question question_in_round
