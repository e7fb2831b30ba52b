-- ===== src/Msg/Service/Once.antt =====
-- For how long the store remembers a delivery of internal/msg/service.go.
use herdr_expose.Prelude.Map.{lookup}
use herdr_expose.Prelude.{ℕ, ◌≡◌, ap, subst, inl, inr, true, false, some}
use herdr_expose.Prelude.Text.{Text, text_eq}
use herdr_expose.Msg.Store.{
  Store, Request, Response, ok, pending, claim, create, sweep, reply, valid_id,
}
use herdr_expose.Msg.Service.{
  Listing, PromptAnswer, Outcome, outcome_for, record_outcome, deliver, parts, split_address,
}
use herdr_expose.Msg.Service.Delivery.{outcome_for-typed, settled_quiet}
use herdr_expose.Msg.Service.Memory.{
  Answered, Remembers, claim-Remembers, insert-Remembers, record_outcome-Remembers, reply-Answered,
  same_key, sweep-Remembers, Done, recorded-keeps, record_outcome-marks,
}

-- What the daemon does to its store: `NewID` draws other ids than `id`, and an attempt that ends may
-- have begun long before, with any copy and any outcome.
pub data Step (id : Text) : Store → Store → Type 0 where
  created :
      (now hops : ℕ) (new from to body : Text) (s : Store)
      → text_eq new id ≡ false
      → Step id s (create s now new from to body hops).0
  swept : (now : ℕ) (s : Store) → Step id s (sweep s now)
  claimed : (j : Text) (s : Store) → Step id s (claim s j).0
  noted :
      (now : ℕ) (r : Request) (o : Outcome) (s : Store) → Step id s (record_outcome s now r o).store
  answered :
      (now : ℕ) (j from body : Text) (s s' : Store) (p : Response)
      → reply s now j from body ≡ ok (s', p)
      → Step id s s'

pub data Steps (id : Text) : Store → Store → Type 0 where
  here : (s : Store) → Steps id s s
  then_ : {a b c : Store} → Steps id a b → Step id b c → Steps id a c

module _ (id : Text) where
  Step-Remembers :
      {s s' : Store} → Step id s s' → Remembers id s.requests → Remembers id s'.requests
  unfolding create
  Step-Remembers (created now hops new from to body s d) h =
      sweep-Remembers id now _ (insert-Remembers id new _ s.requests (λ t. absurd (cc (t, d))) h)
  Step-Remembers (swept now s) h = sweep-Remembers id now s h
  Step-Remembers (claimed j s) h = claim-Remembers id j s h
  Step-Remembers (noted now r o s) h =
      record_outcome-Remembers id now r o s
        (λ q u t. recorded-keeps o now q (same_key id r.id q s.requests h u t)) h
  Step-Remembers (answered now j from body s s' p e) h =
      subst (Answered id) e (reply-Answered id now j from body s h)

  Steps-Remembers :
      {s s' : Store} → Steps id s s' → Remembers id s.requests → Remembers id s'.requests
  Steps-Remembers (here s) h = h
  Steps-Remembers (then_ a b) h = Step-Remembers b (Steps-Remembers a h)

-- Once the attempt whose prompt Herdr accepted has ended, no copy of the request that is read from the
-- store as pending is typed again, whatever the daemon has done to the store since: new requests of
-- other ids, replies, sweeps, claims, and the ends of other attempts, also of some that began earlier.
-- The store may be anything when the attempt ends. A copy that was read before then is not covered.
pub typed_once :
    (s s' s'' : Store) (now now' : ℕ) (l l' : Listing) (answer answer' : PromptAnswer)
    (r q : Request)
    → valid_id r.id ≡ true
    → (outcome_for r (parts (split_address r.to)) l answer).typed ≡ true
    → Steps r.id
        (record_outcome s now r (outcome_for r (parts (split_address r.to)) l answer)).store
        s'
    → lookup r.id s'.requests ≡ some q
    → pending q.status ≡ true
    → (deliver s'' now' l' answer' q).typed ≡ false
typed_once s s' s'' now now' l l' answer answer' r q v t steps u w =
    let o = outcome_for r (parts (split_address r.to)) l answer in
    let (_, (_, d)) = outcome_for-typed r (parts (split_address r.to)) l answer t in
    let kept : Done q = Steps-Remembers r.id steps (record_outcome-marks now r o s v d) q u in
    elim kept [
      | inl m ↦ settled_quiet s'' now' l' answer' q m
      | inr m ↦ absurd (cc (ap pending m, w))
    ]
