-- ===== src/Serve/ConnGate.antt =====
-- internal/serve/connlimit.go: the gate of WebSocket handshakes, a rate bucket and two caps. The
-- closure `release` that `acquire` returns is a ticket here, whose flag is its `sync.Once`.
pub mod Caps
use herdr_expose.Prelude.Map.{delete, lookup, insert, Map}
use herdr_expose.Prelude.Lists.{is_empty}
use herdr_expose.Prelude.{
  ℕ, zero, suc, ◌+◌, ◌-◌, ◌*◌, ◌/◌, ◌%◌, ◌^◌, ◌≤◌, ◌<◌, ◌≡◌, refl, sym, ap, ap₂, subst, ◌∙◌, ◌≢◌,
  ◌↔◌, ◌⊎◌, inl, inr, Bool, true, false, not, ◌&&◌, ◌||◌, Option, none, some, List, [], ◌∷◌, ◌++◌,
  map, append-nil, append_assoc, arith,
}
use herdr_expose.Prelude.Tests.{
  or_zero, ltb, leb, ◌==◌, ==_iff, if◌then◌else◌, Bool-cases, Option-cases,
}
use herdr_expose.Prelude.Text.{bytes, text_eq, Text}
use herdr_expose.Serve.RateLimiter.{RateLimiter, new_rate_limiter, allow}

abbrev pub handshake_burst_per_identity : ℕ
handshake_burst_per_identity = 30

abbrev pub max_conns_per_identity : ℕ
max_conns_per_identity = 16

abbrev pub max_conns_total : ℕ
max_conns_total = 128

pub record ConnGate : Type 0 where
  pub rl : RateLimiter
  pub per_id : Map ℕ
  pub total : ℕ
  pub max_per_id : ℕ
  pub max_total : ℕ

unfoldable pub new_conn_gate : ConnGate
unfolding new_rate_limiter
new_conn_gate = record {
  rl = new_rate_limiter handshake_burst_per_identity 1 1;
  per_id = [];
  total = 0;
  max_per_id = max_conns_per_identity;
  max_total = max_conns_total;
}

pub record Identity : Type 0 where
  pub kind : Text
  pub device_id : Text
  pub name : Text

unfoldable pub identity_key : Identity → Text → Text
identity_key who remote_ip =
    if not (is_empty who.device_id)
    then bytes "dev:" ++ who.device_id
    else if text_eq who.kind (bytes "server")
    then bytes "server"
    else if text_eq who.kind (bytes "local")
    then bytes "local:" ++ remote_ip
    else bytes "ip:" ++ remote_ip

pub data Answer : Type 0 where
  admitted : Answer
  handshake_rate server_cap identity_cap : Answer

-- `g.perID[key]`, nought if the key is missing.
abbrev pub conns_of : ConnGate → Text → ℕ
conns_of g key = or_zero (lookup key g.per_id)

-- The part of `acquire` under the lock.
unfoldable pub reserve : ConnGate → Text → ConnGate × Answer
reserve g key =
    if leb g.max_total g.total
    then (g, server_cap)
    else if leb g.max_per_id (conns_of g key)
    then (g, identity_cap)
    else (
      record g { per_id = insert key (conns_of g key + 1) g.per_id; total = g.total + 1 },
      admitted,
    )

unfoldable pub acquire : ConnGate → ℕ → Text → ConnGate × Answer
unfolding reserve
acquire g now key =
    let (rl, ok) = allow g.rl now (bytes "ws:" ++ key) in
    if ok then reserve (record g { rl = rl }) key else (record g { rl = rl }, handshake_rate)

-- The body of `release`.
unfoldable pub give_back : ConnGate → Text → ConnGate
give_back g key = record g {
  per_id =
      if ltb 0 (conns_of g key - 1)
      then insert key (conns_of g key - 1) g.per_id
      else delete key g.per_id;
  total = if ltb 0 g.total then g.total - 1 else g.total;
}

-- A connection's right to release, and whether it was used.
pub record Ticket : Type 0 where
  pub key : Text
  pub used : Bool

pub record Served : Type 0 where
  pub gate : ConnGate
  pub tickets : List Ticket

pub data Call : Type 0 where
  acquires : ℕ → Text → Call
  -- The release of the ticket at a position, the newest ticket first.
  releases : ℕ → Call

unfoldable pub issue : List Ticket → Text → ConnGate × Answer → Served
issue ts key (g, admitted) = record { gate = g; tickets = record { key = key; used = false } ∷ ts }
issue ts key (g, _) = record { gate = g; tickets = ts }

-- `once.Do` on the ticket at a position.
unfoldable pub release_at : ConnGate → ℕ → List Ticket → Served
unfolding give_back
release_at g n [] = record { gate = g; tickets = [] }
release_at g zero (t ∷ ts) =
    if t.used
    then record { gate = g; tickets = t ∷ ts }
    else record { gate = give_back g t.key; tickets = record t { used = true } ∷ ts }
release_at g (suc n) (t ∷ ts) =
    let s = release_at g n ts in record { gate = s.gate; tickets = t ∷ s.tickets }

unfoldable pub call : Served → Call → Served
unfolding acquire issue release_at
call s (acquires now key) = issue s.tickets key (acquire s.gate now key)
call s (releases n) = release_at s.gate n s.tickets

unfoldable pub run_calls : Served → List Call → Served
run_calls s [] = s
run_calls s (c ∷ cs) = run_calls (call s c) cs
