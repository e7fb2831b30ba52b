-- ===== src/Msg/Store/Sweep.antt =====
-- What a sweep of internal/msg/store.go deletes, and what it never does.
use herdr_expose.Prelude.Lists.{length}
use herdr_expose.Prelude.Map.{lookup-delete, delete, lookup-insert, insert, Map, lookup}
use herdr_expose.Prelude.{
  ℕ, zero, suc, ◌-◌, ◌≤◌, ◌≡◌, refl, ◌∙◌, inl, inr, true, false, ◌&&◌, none, some, List, [], ◌∷◌,
  arith,
}
use herdr_expose.Prelude.Tests.{ltb, Bool-cases, Option-cases}
use herdr_expose.Prelude.Text.{text_eq_iff, text_eq, Text}
use herdr_expose.Msg.Store.{
  Request, Store, Entry, pending, expire, expire_all, remove_excess, sweep, ids_locked,
}

pub expire_step :
    (P : Map Request × List Entry → Type 0) (now expiry : ℕ) (id : Text) (ids : List Text)
    (m : Map Request)
    → (lookup id m ≡ none → P (expire_all now expiry ids m))
    → ((r : Request)
        → lookup id m ≡ some r
        → P (
          (expire_all now expiry ids (insert id (expire now expiry r) m)).0,
          record { id = id; pending = pending (expire now expiry r).status }
              ∷ (expire_all now expiry ids (insert id (expire now expiry r) m)).1,
        ))
    → P (expire_all now expiry (id ∷ ids) m)
unfolding expire_all
expire_step P now expiry id ids m miss hit = elim (Option-cases (lookup id m)) [
  | inl e ↦ rw (e, expire_all) (miss e)
  | inr (r, e) ↦ rw (e, expire_all) (hit r e)
]

-- A request that waits for its reply and is not too old.
pub record IsWaiting (now expiry : ℕ) (r : Request) : Type 0 where
  pub waits : pending r.status ≡ true
  pub fresh : now - r.created ≤ expiry

expire_waiting : (now expiry : ℕ) (r : Request) → IsWaiting now expiry r → expire now expiry r ≡ r
unfolding expire
expire_waiting now expiry r w =
    let e : (pending r.status && ltb expiry (now - r.created)) ≡ false =
      ground (arith, w.waits, w.fresh) in
    simp e refl

-- Its entry says that it waits, wherever its id stands.
abbrev Protects : Text → List Entry → Type 0
Protects id [] = Unit {0}
Protects id (e ∷ es) = (text_eq e.id id ≡ true → e.pending ≡ true) × Protects id es

same_request :
    (j id : Text) (q r : Request) (m : Map Request)
    → text_eq j id ≡ true
    → lookup j m ≡ some q
    → lookup id m ≡ some r
    → q ≡ r
same_request j id q r m t f e = ground (arith, text_eq_iff j id)

insert_kept :
    (now expiry : ℕ) (j id : Text) (q r : Request) (m : Map Request)
    → IsWaiting now expiry r
    → lookup j m ≡ some q
    → lookup id m ≡ some r
    → lookup id (insert j (expire now expiry q) m) ≡ some r
insert_kept now expiry j id q r m w f e =
    rw (lookup-insert j id (expire now expiry q) m) (elim (Bool-cases (text_eq j id)) [
      | inl t ↦
          let k : q ≡ r = same_request j id q r m t f e in
          rw (t, k, expire_waiting now expiry r w) refl
      | inr t ↦ rw t e
    ])

pending_kept :
    (now expiry : ℕ) (j id : Text) (q r : Request) (m : Map Request)
    → IsWaiting now expiry r
    → lookup j m ≡ some q
    → lookup id m ≡ some r
    → text_eq j id ≡ true
    → pending (expire now expiry q).status ≡ true
pending_kept now expiry j id q r m w f e t =
    let k : q ≡ r = same_request j id q r m t f e in rw (k, expire_waiting now expiry r w) (w.waits)

expire_all-waiting :
    (now expiry : ℕ) (id : Text) (r : Request) (ids : List Text) (m : Map Request)
    → IsWaiting now expiry r
    → lookup id m ≡ some r
    → (lookup id (expire_all now expiry ids m).0 ≡ some r)
      × Protects id (expire_all now expiry ids m).1
expire_all-waiting now expiry id r [] m w e = unfold expire_all in (e, tt)
expire_all-waiting now expiry id r (j ∷ ids) m w e =
    expire_step (λ (x : Map Request × List Entry). (lookup id x.0 ≡ some r) × Protects id x.1) now
      expiry j ids m (λ _. expire_all-waiting now expiry id r ids m w e)
      λ q f.
        let next =
          expire_all-waiting now expiry id r ids (insert j (expire now expiry q) m) w
            (insert_kept now expiry j id q r m w f e) in
        (next.0, ((λ same. pending_kept now expiry j id q r m w f e same), next.1))

remove_excess-protected :
    (n : ℕ) (id : Text) (es : List Entry) (s : Store)
    → Protects id es
    → (lookup id (remove_excess n es s).requests ≡ lookup id s.requests)
      × (lookup id (remove_excess n es s).responses ≡ lookup id s.responses)
unfolding remove_excess
remove_excess-protected n id [] s p = (refl, refl)
remove_excess-protected zero id (e ∷ es) s p = (refl, refl)
remove_excess-protected (suc n) id (e ∷ es) s p = elim (Bool-cases e.pending) [
  | inl t ↦ simp t (remove_excess-protected (suc n) id es s p.1)
  | inr f ↦
      let other : text_eq e.id id ≡ false = elim (Bool-cases (text_eq e.id id)) [
        | inl t ↦ absurd (cc (f, p.0 t))
        | inr t ↦ t
      ] in
      let rest =
        remove_excess-protected n id es
          (record s { responses = delete e.id s.responses; requests = delete e.id s.requests })
          p.1 in
      let a : lookup id (delete e.id s.requests) ≡ lookup id s.requests =
        rw (lookup-delete e.id id s.requests, other) refl in
      let b : lookup id (delete e.id s.responses) ≡ lookup id s.responses =
        rw (lookup-delete e.id id s.responses, other) refl in
      simp f (rest.0 ∙ a, rest.1 ∙ b)
]

-- A request that still waits for its reply and has not expired survives every sweep unchanged, with
-- its response, however many newer requests there are.
pub sweep-keeps_waiting :
    (s : Store) (now : ℕ) (id : Text) (r : Request)
    → lookup id s.requests ≡ some r
    → IsWaiting now s.expiry r
    → (lookup id (sweep s now).requests ≡ some r)
      × (lookup id (sweep s now).responses ≡ lookup id s.responses)
unfolding sweep
sweep-keeps_waiting s now id r e w =
    let x = expire_all now s.expiry (ids_locked s) s.requests in
    let (kept, safe) = expire_all-waiting now s.expiry id r (ids_locked s) s.requests w e in
    let (a, b) =
      remove_excess-protected (length x.1 - s.keep) id x.1 (record s { requests = x.0 }) safe in
    (a ∙ kept, b)
