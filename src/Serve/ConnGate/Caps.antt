-- ===== src/Serve/ConnGate/Caps.antt =====
-- The counts and the caps of internal/serve/connlimit.go, under any history of calls.
use herdr_expose.Prelude.Map.{lookup-delete, lookup, lookup-insert}
use herdr_expose.Prelude.{
  ℕ, zero, suc, ◌+◌, ◌-◌, ◌≤◌, ◌≡◌, refl, inl, inr, List, [], ◌∷◌, ◌++◌, arith,
}
use herdr_expose.Prelude.Tests.{if_split, ltb, leb, if◌then◌else◌, Bool-cases}
use herdr_expose.Prelude.Text.{bytes, text_eq_refl, text_eq_iff, text_eq, Text}
use herdr_expose.Serve.RateLimiter.{allow, RateLimiter}
use herdr_expose.Serve.ConnGate.{
  ConnGate, new_conn_gate, Answer, conns_of, reserve, acquire, give_back, Ticket, Served, Call,
  acquires, releases, issue, release_at, call, run_calls, max_conns_total, max_conns_per_identity,
}

-- The tickets that are still out, in all and of one key.
abbrev pub open_all : List Ticket → ℕ
open_all [] = 0
open_all (t ∷ ts) = (if t.used then 0 else 1) + open_all ts

abbrev pub open_of : Text → List Ticket → ℕ
open_of k [] = 0
open_of k (t ∷ ts) = (if t.used then 0 else if text_eq t.key k then 1 else 0) + open_of k ts

-- The counters are the open tickets, and no more are open than the caps allow.
pub record IsCounted (g : ConnGate) (ts : List Ticket) : Type 0 where
  pub total : g.total ≡ open_all ts
  pub per_id : (k : Text) → conns_of g k ≡ open_of k ts
  pub total_cap : g.total ≤ g.max_total
  pub id_cap : (k : Text) → conns_of g k ≤ g.max_per_id
  pub limits : (g.max_total ≡ max_conns_total) × (g.max_per_id ≡ max_conns_per_identity)

reserve-IsCounted :
    (g : ConnGate) (ts : List Ticket) (key : Text)
    → IsCounted g ts
    → IsCounted (issue ts key (reserve g key)).gate (issue ts key (reserve g key)).tickets
unfolding reserve issue
reserve-IsCounted g ts key v =
    if_split (λ (r : ConnGate × Answer). IsCounted (issue ts key r).gate (issue ts key r).tickets)
      (leb g.max_total g.total) (λ _. v)
      λ full.
        if_split
          (λ (r : ConnGate × Answer). IsCounted (issue ts key r).gate (issue ts key r).tickets)
          (leb g.max_per_id (conns_of g key)) (λ _. v)
          λ many. record {
            total = omega (arith, v.total);
            per_id = λ k.
                rw (lookup-insert key k (conns_of g key + 1) g.per_id)
                  (ground (arith, text_eq_iff key k, v.per_id k, v.per_id key));
            total_cap = ground arith;
            id_cap = λ k.
                rw (lookup-insert key k (conns_of g key + 1) g.per_id) (ground (arith, v.id_cap k));
            limits = v.limits;
          }

-- What a release does: nothing, or one ticket fewer and its key given back.
data Releases (g : ConnGate) (ts : List Ticket) (s : Served) : Type 0 where
  nothing :
      s.gate ≡ g
      → open_all s.tickets ≡ open_all ts
      → ((k : Text) → open_of k s.tickets ≡ open_of k ts)
      → Releases g ts s
  one :
      (key : Text)
      → s.gate ≡ give_back g key
      → open_all s.tickets + 1 ≡ open_all ts
      → ((k : Text) → open_of k s.tickets + (if text_eq key k then 1 else 0) ≡ open_of k ts)
      → Releases g ts s

Releases-cons :
    (g : ConnGate) (t : Ticket) (ts : List Ticket) (s : Served)
    → Releases g ts s
    → Releases g (t ∷ ts) (record { gate = s.gate; tickets = t ∷ s.tickets })
Releases-cons g t ts s (nothing e a o) = nothing e (omega (arith, a)) (λ k. omega (arith, o k))
Releases-cons g t ts s (one key e a o) = one key e (omega (arith, a)) (λ k. omega (arith, o k))

release_at-Releases : (g : ConnGate) (n : ℕ) (ts : List Ticket) → Releases g ts (release_at g n ts)
unfolding release_at
release_at-Releases g n [] = nothing refl refl (λ k. refl)
release_at-Releases g zero (t ∷ ts) = elim (Bool-cases t.used) [
  | inl e ↦ simp e (nothing refl refl (λ k. refl))
  | inr e ↦ simp e (one t.key refl (ground arith) (λ k. ground arith))
]
release_at-Releases g (suc n) (t ∷ ts) =
    Releases-cons g t ts (release_at g n ts) (release_at-Releases g n ts)

give_back-IsCounted :
    (g : ConnGate) (ts us : List Ticket) (key : Text)
    → IsCounted g ts
    → open_all us + 1 ≡ open_all ts
    → ((k : Text) → open_of k us + (if text_eq key k then 1 else 0) ≡ open_of k ts)
    → IsCounted (give_back g key) us
unfolding give_back
give_back-IsCounted g ts us key v a o =
    let own : open_of key us + 1 ≡ conns_of g key =
      ground (arith, o key, v.per_id key, text_eq_refl key) in
    record {
      total = ground (arith, v.total);
      per_id = λ k. elim (Bool-cases (ltb 0 (conns_of g key - 1))) [
        | inl e ↦
            simp (e, lookup-insert)
              (ground (arith, text_eq_iff key k, o k, v.per_id k, v.per_id key))
        | inr e ↦
            simp (e, lookup-delete)
              (ground (arith, text_eq_iff key k, o k, v.per_id k, v.per_id key))
      ];
      total_cap = ground (arith, v.total_cap);
      id_cap = λ k. elim (Bool-cases (ltb 0 (conns_of g key - 1))) [
        | inl e ↦ simp (e, lookup-insert) (ground (arith, v.id_cap k, v.id_cap key))
        | inr e ↦ simp (e, lookup-delete) (ground (arith, v.id_cap k))
      ];
      limits = v.limits;
    }

release_at-IsCounted :
    (g : ConnGate) (ts : List Ticket) (s : Served)
    → IsCounted g ts
    → Releases g ts s
    → IsCounted s.gate s.tickets
release_at-IsCounted g ts s v (nothing e a o) = rw e (record {
  total = omega (arith, v.total, a);
  per_id = λ k. omega (arith, v.per_id k, o k);
  total_cap = v.total_cap;
  id_cap = v.id_cap;
  limits = v.limits;
})
release_at-IsCounted g ts s v (one key e a o) = rw e (give_back-IsCounted g ts s.tickets key v a o)

rate_limited :
    (g : ConnGate) (ts : List Ticket) (rl : RateLimiter)
    → IsCounted g ts
    → IsCounted (record g { rl = rl }) ts
rate_limited g ts rl v = record {
  total = v.total;
  per_id = v.per_id;
  total_cap = v.total_cap;
  id_cap = v.id_cap;
  limits = v.limits;
}

call-IsCounted :
    (s : Served) (c : Call)
    → IsCounted s.gate s.tickets
    → IsCounted (call s c).gate (call s c).tickets
unfolding call acquire
call-IsCounted s (acquires now key) v =
    let r : RateLimiter = (allow s.gate.rl now (bytes "ws:" ++ key)).0 in
    if_split
      (λ (a : ConnGate × Answer).
        IsCounted (issue s.tickets key a).gate (issue s.tickets key a).tickets)
      (allow s.gate.rl now (bytes "ws:" ++ key)).1
      (λ _.
        reserve-IsCounted (record (s.gate) { rl = r }) s.tickets key
          (rate_limited s.gate s.tickets r v))
      (λ _. unfold issue in rate_limited s.gate s.tickets r v)
call-IsCounted s (releases n) v =
    release_at-IsCounted s.gate s.tickets (release_at s.gate n s.tickets) v
      (release_at-Releases s.gate n s.tickets)

-- A call keeps the counters equal to the connections that are open, and these within the caps.
pub run_calls-IsCounted :
    (s : Served) (cs : List Call)
    → IsCounted s.gate s.tickets
    → IsCounted (run_calls s cs).gate (run_calls s cs).tickets
unfolding run_calls
run_calls-IsCounted s [] v = v
run_calls-IsCounted s (c ∷ cs) v = run_calls-IsCounted (call s c) cs (call-IsCounted s c v)

abbrev pub opened : Served
unfolding new_conn_gate
opened = record { gate = new_conn_gate; tickets = [] }

opened-IsCounted : IsCounted opened.gate opened.tickets
unfolding new_conn_gate lookup
opened-IsCounted = record {
  total = refl;
  per_id = λ k. refl;
  total_cap = omega arith;
  id_cap = λ k. omega arith;
  limits = (refl, refl);
}

-- After any history of handshakes and releases, releases made twice or of no ticket included, at
-- most 16 connections of one identity and 128 in all are open, and the gate's counters say exactly
-- how many: no release is counted twice and none is forgotten.
pub run_calls-caps :
    (cs : List Call) (k : Text)
    → let s = run_calls opened cs in
      (open_of k s.tickets ≤ max_conns_per_identity)
      × (open_all s.tickets ≤ max_conns_total)
      × (conns_of s.gate k ≡ open_of k s.tickets)
      × (s.gate.total ≡ open_all s.tickets)
run_calls-caps cs k =
    let v = run_calls-IsCounted opened cs opened-IsCounted in
    let a = v.per_id k in
    let b = v.id_cap k in
    (omega (arith, v.limits.1), omega (arith, v.total, v.total_cap, v.limits.0), a, v.total)
