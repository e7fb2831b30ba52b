-- ===== src/Msg/Service/Memory.antt =====
-- What the store remembers of a delivery of internal/msg/service.go.
use herdr_expose.Prelude.Map.{
  Map, lookup, insert, delete, lookup-insert, lookup-insert_self, lookup-delete,
}
use herdr_expose.Prelude.{
  ℕ, zero, suc, ◌-◌, ◌≡◌, refl, ap, subst, ◌⊎◌, inl, inr, Bool, true, false, ◌&&◌, none, some, List,
  [], ◌∷◌, arith,
}
use herdr_expose.Prelude.Lists.{length}
use herdr_expose.Prelude.Tests.{is_some, if_split, ltb, Bool-cases, Option-cases}
use herdr_expose.Prelude.Text.{Text, text_eq, text_eq_iff, member}
use herdr_expose.Msg.Store.{
  Store, Request, Response, Result, ok, err, Entry, Status, delivered, replied, pending, status_eq,
  claim, release, sweep, expire, expire_all, remove_excess, ids_locked, update, updated_with, reply,
  replied_to, write_reply, valid_id,
}
use herdr_expose.Msg.Store.Sweep.{expire_step}
use herdr_expose.Msg.Service.{Outcome, recorded, record_outcome, after_update}

-- A request that was delivered or has its reply.
abbrev pub Done : Request → Type 0
Done r = (is_some r.delivered_at ≡ true) ⊎ (r.status ≡ replied)

expire-Done : (now expiry : ℕ) (r : Request) → Done r → Done (expire now expiry r)
unfolding expire
expire-Done now expiry r (inl d) =
    if_split Done (pending r.status && ltb expiry (now - r.created)) (λ _. inl d) λ _. inl d
expire-Done now expiry r (inr d) =
    let over : pending r.status ≡ false = ap pending d in
    if_split Done (pending r.status && ltb expiry (now - r.created))
      (λ t. absurd (ground (arith, t, over))) λ _. inr d

pub recorded-keeps : (o : Outcome) (now : ℕ) (q : Request) → Done q → Done (recorded o now q)
unfolding recorded status_eq
recorded-keeps o now q (inr d) =
    let same : status_eq q.status replied ≡ true = ap (λ st. status_eq st replied) d in
    if_split Done (status_eq q.status replied) (λ _. inr d) λ f. absurd (cc (same, f))
recorded-keeps o now q (inl d) =
    if_split Done (status_eq q.status replied) (λ _. inl d) λ _. inl (rw d d)

status_eq-replied : (st : Status) → status_eq st replied ≡ true → st ≡ replied
unfolding status_eq
status_eq-replied Status.queued h = absurd (cc (h))
status_eq-replied Status.delivered h = absurd (cc (h))
status_eq-replied Status.replied h = refl
status_eq-replied Status.blocked h = absurd (cc (h))
status_eq-replied Status.failed h = absurd (cc (h))
status_eq-replied Status.expired h = absurd (cc (h))

-- A delivery is recorded, unless the reply came first.
recorded-Done :
    (o : Outcome) (now : ℕ) (q : Request) → o.status ≡ delivered → Done (recorded o now q)
unfolding recorded status_eq
recorded-Done o now q e = elim (Bool-cases (status_eq q.status replied)) [
  | inl t ↦ rw t (inr (status_eq-replied q.status t))
  | inr t ↦ elim (Option-cases q.delivered_at) [
    | inl u ↦ rw (t, u, e) (inl refl)
    | inr (a, u) ↦ rw (t, u) (inl refl)
  ]
]

module _ (id : Text) where
  abbrev pub Remembers : Map Request → Type 0
  Remembers m = (q : Request) → lookup id m ≡ some q → Done q

  pub insert-Remembers :
      (j : Text) (v : Request) (m : Map Request)
      → (text_eq j id ≡ true → Done v)
      → Remembers m
      → Remembers (insert j v m)
  insert-Remembers j v m d h q e = elim (Bool-cases (text_eq j id)) [
    | inl t ↦
        let same : some v ≡ some q = rw (lookup-insert j id v m, t) at e in
        let eq : v ≡ q = cc (same) in rw (← eq) (d t)
    | inr t ↦ h q (rw (lookup-insert j id v m, t) at e)
  ]

  delete-Remembers : (j : Text) (m : Map Request) → Remembers m → Remembers (delete j m)
  delete-Remembers j m h q e = elim (Bool-cases (text_eq j id)) [
    | inl t ↦ absurd (cc (rw (lookup-delete j id m, t) at e))
    | inr t ↦ h q (rw (lookup-delete j id m, t) at e)
  ]

  -- A request that is stored under a key equal to `id` is the one of `id`.
  pub same_key :
      (j : Text) (r : Request) (m : Map Request)
      → Remembers m
      → lookup j m ≡ some r
      → text_eq j id ≡ true
      → Done r
  same_key j r m h e t = let k : j ≡ id = (text_eq_iff j id).0 t in h r (rw k at e)

  expire_all-Remembers :
      (now expiry : ℕ) (ids : List Text) (m : Map Request)
      → Remembers m
      → Remembers (expire_all now expiry ids m).0
  unfolding expire_all
  expire_all-Remembers now expiry [] m h = h
  expire_all-Remembers now expiry (j ∷ ids) m h =
      expire_step (λ (x : Map Request × List Entry). Remembers x.0) now expiry j ids m
        (λ _. expire_all-Remembers now expiry ids m h)
        λ r e. expire_all-Remembers now expiry ids (insert j (expire now expiry r) m) (
          insert-Remembers j (expire now expiry r) m
            (λ t. expire-Done now expiry r (same_key j r m h e t)) h)

  remove_excess-Remembers :
      (n : ℕ) (es : List Entry) (s : Store)
      → Remembers s.requests
      → Remembers (remove_excess n es s).requests
  unfolding remove_excess
  remove_excess-Remembers n [] s h = h
  remove_excess-Remembers zero (e ∷ es) s h = h
  remove_excess-Remembers (suc n) (e ∷ es) s h = elim (Bool-cases e.pending) [
    | inl t ↦ simp t (remove_excess-Remembers (suc n) es s h)
    | inr t ↦ simp t (
        remove_excess-Remembers n es
          (record s { responses = delete e.id s.responses; requests = delete e.id s.requests })
          (delete-Remembers e.id s.requests h))
  ]

  pub sweep-Remembers :
      (now : ℕ) (s : Store) → Remembers s.requests → Remembers (sweep s now).requests
  unfolding sweep
  sweep-Remembers now s h =
      let x = expire_all now s.expiry (ids_locked s) s.requests in
      remove_excess-Remembers (length x.1 - s.keep) x.1 (record s { requests = x.0 })
        (expire_all-Remembers now s.expiry (ids_locked s) s.requests h)

  pub claim-Remembers :
      (j : Text) (s : Store) → Remembers s.requests → Remembers (claim s j).0.requests
  unfolding claim
  claim-Remembers j s h =
      if_split (λ (x : Store × Bool). Remembers x.0.requests) (member j s.delivering) (λ _. h)
        λ _. h

  -- An update keeps what the store remembers where its function does.
  pub record_outcome-Remembers :
      (now : ℕ) (r : Request) (o : Outcome) (s : Store)
      → ((q : Request)
          → lookup r.id s.requests ≡ some q
          → text_eq r.id id ≡ true
          → Done (recorded o now q))
      → Remembers s.requests
      → Remembers (record_outcome s now r o).store.requests
  unfolding record_outcome update lookup
  record_outcome-Remembers now r o s d h = elim (Bool-cases (valid_id r.id)) [
    | inr v ↦ rw (update, v) (unfold after_update release in h)
    | inl v ↦ elim (Option-cases (lookup r.id s.requests)) [
      | inl u ↦ rw (update, v, updated_with, u) (unfold after_update release in h)
      | inr (q, u) ↦
          rw (update, v, updated_with, u)
            (unfold after_update release in
              insert-Remembers r.id (record (recorded o now q) { updated = now }) s.requests (d q u)
                h)
    ]
  ]

  abbrev pub Answered : Result (Store × Response) → Type 0
  Answered (ok (s, p)) = Remembers s.requests
  Answered (err e) = Unit {0}

  pub reply-Answered :
      (now : ℕ) (j from body : Text) (s : Store)
      → Remembers s.requests
      → Answered (reply s now j from body)
  unfolding reply write_reply
  reply-Answered now j from body s h =
      if_split Answered (valid_id j) (λ _. found (Option-cases (lookup j s.requests))) λ _. tt
    where
      found :
          (lookup j s.requests ≡ none) ⊎ ((r : Request) × (lookup j s.requests ≡ some r))
          → Answered (replied_to s now j from body)
      found (inl u) = rw (replied_to, u) tt
      found (inr (r, u)) =
          rw (replied_to, u)
            (if_split Answered (is_some (lookup j s.responses)) (λ _. tt)
              λ _. sweep-Remembers now _ (
                insert-Remembers j (record r { status = replied; error = []; updated = now })
                  s.requests (λ t. inr refl) h))

-- The end of an attempt that typed the text leaves the request marked, or it has its reply.
pub record_outcome-marks :
    (now : ℕ) (r : Request) (o : Outcome) (s : Store)
    → valid_id r.id ≡ true
    → o.status ≡ delivered
    → Remembers r.id (record_outcome s now r o).store.requests
unfolding record_outcome update lookup
record_outcome-marks now r o s v d = elim (Option-cases (lookup r.id s.requests)) [
  | inl u ↦
      rw (update, v, updated_with, u) (unfold after_update release in λ q e. absurd (cc (u, e)))
  | inr (q, u) ↦
      rw (update, v, updated_with, u)
        (unfold after_update release in
          λ q' e.
            let same : some (record (recorded o now q) { updated = now }) ≡ some q' =
              rw (lookup-insert_self r.id (record (recorded o now q) { updated = now }) s.requests)
                at e in
            let eq : record (recorded o now q) { updated = now } ≡ q' = cc (same) in
            subst Done eq (recorded-Done o now q d))
]
