-- ===== src/Msg/Store.antt =====
-- internal/msg/store.go: the request and response files. A directory is two maps from request ids;
-- a file that cannot be read or written, and one that is no JSON, are not modelled. Times are
-- milliseconds.
pub mod Sweep
pub mod Replies
use herdr_expose.Prelude.Lists.{keep_if, length, take, drop, any_of}
use herdr_expose.Prelude.Map.{keys, lookup, insert, Map, delete}
use mathlib.Core.List.{reverse}
use herdr_expose.Prelude.{
  ℕ, zero, suc, ◌+◌, ◌-◌, ◌*◌, ◌/◌, ◌%◌, ◌^◌, ◌≤◌, ◌<◌, ◌≡◌, refl, sym, ap, ap₂, subst, ◌∙◌, ◌≢◌,
  ◌↔◌, ◌⊎◌, inl, inr, Bool, true, false, not, ◌&&◌, ◌||◌, Option, none, some, List, [], ◌∷◌, ◌++◌,
  map, append-nil, append_assoc, arith,
}
use herdr_expose.Prelude.Tests.{
  is_some, ltb, leb, ◌==◌, ==_iff, if◌then◌else◌, Bool-cases, Option-cases,
}
use herdr_expose.Prelude.Text.{text_eq, sort_texts, member, bytes, Text}

pub data Status : Type 0 where
  queued delivered replied blocked failed expired : Status

pub record Request : Type 0 where
  pub id : Text
  pub from : Text
  pub to : Text
  pub body : Text
  pub hops : ℕ
  pub created : ℕ
  pub updated : ℕ
  pub status : Status
  pub error : Text
  pub attempts : ℕ
  pub delivered_at : Option ℕ

pub record Response : Type 0 where
  pub id : Text
  pub from : Text
  pub body : Text
  pub created : ℕ

pub record Store : Type 0 where
  pub keep : ℕ
  pub expiry : ℕ
  pub requests : Map Request
  pub responses : Map Response
  pub delivering : List Text

pub data Error : Type 0 where
  not_found already_replied bad_address empty_message too_many_hops : Error

pub data Result {ℓ} (A : Type ℓ) : Type ℓ where
  ok : A → Result A
  err : Error → Result A

abbrev pub default_keep : ℕ
default_keep = 100

abbrev pub default_expiry : ℕ
default_expiry = 86400000

unfoldable pub new_store : ℕ → ℕ → Store
new_store keep expiry = record {
  keep = if keep == 0 then default_keep else keep;
  expiry = if expiry == 0 then default_expiry else expiry;
  requests = [];
  responses = [];
  delivering = [];
}

unfoldable pub claim : Store → Text → Store × Bool
claim s id =
    if member id s.delivering
    then (s, false)
    else (record s { delivering = id ∷ s.delivering }, true)

unfoldable pub release : Store → Text → Store
release s id = record s { delivering = keep_if (λ (j : Text). not (text_eq id j)) s.delivering }

abbrev pub pending : Status → Bool
pending queued = true
pending delivered = true
pending blocked = true
pending replied = false
pending failed = false
pending expired = false

abbrev is_digit : ℕ → Bool
is_digit c = leb b'0' c && leb c b'9'

abbrev is_hex : ℕ → Bool
is_hex c = is_digit c || (leb b'a' c && leb c b'f')

-- `idRe`: `r-`, 13 digits, a dash and 4 hexadecimal digits, and no more.
unfoldable pub valid_id : Text → Bool
valid_id id =
    length id == 20
    && (text_eq (take 2 id) (bytes "r-")
        && (not (any_of (λ (c : ℕ). not (is_digit c)) (take 13 (drop 2 id)))
            && (text_eq (take 1 (drop 15 id)) (bytes "-")
                && not (any_of (λ (c : ℕ). not (is_hex c)) (drop 16 id)))))

-- Request ids, oldest first.
unfoldable pub ids_locked : Store → List Text
ids_locked s = sort_texts (keep_if valid_id (keys s.requests))

pub record Entry : Type 0 where
  pub id : Text
  pub pending : Bool

unfoldable pub expire : ℕ → ℕ → Request → Request
expire now expiry r =
    if pending r.status && ltb expiry (now - r.created)
    then record r { status = expired; updated = now }
    else r

-- The first loop of `sweepLocked`.
unfoldable pub expire_all : ℕ → ℕ → List Text → Map Request → Map Request × List Entry
unfolding expire
expire_all now expiry [] m = (m, [])
expire_all now expiry (id ∷ ids) m = elim (lookup id m) [
  | none ↦ expire_all now expiry ids m
  | some r ↦
      let q = expire now expiry r in
      let (m', es) = expire_all now expiry ids (insert id q m) in
      (m', record { id = id; pending = pending q.status } ∷ es)
]

-- The second loop: the oldest pairs that wait for nothing go, until no more than `keep` are left.
unfoldable pub remove_excess : ℕ → List Entry → Store → Store
remove_excess excess [] s = s
remove_excess zero (e ∷ es) s = s
remove_excess (suc excess) (e ∷ es) s =
    remove_excess (if e.pending then suc excess else excess) es (
      if e.pending
      then s
      else record s { responses = delete e.id s.responses; requests = delete e.id s.requests })

unfoldable pub sweep : Store → ℕ → Store
unfolding ids_locked expire_all remove_excess
sweep s now =
    let (m, es) = expire_all now s.expiry (ids_locked s) s.requests in
    remove_excess (length es - s.keep) es (record s { requests = m })

-- `Create`, for the id that `NewID` drew.
unfoldable pub create : Store → ℕ → Text → Text → Text → Text → ℕ → Store × Request
unfolding sweep
create s now id from to body hops =
    let r : Request = record {
      id = id;
      from = from;
      to = to;
      body = body;
      hops = hops;
      created = now;
      updated = now;
      status = queued;
      error = [];
      attempts = 0;
      delivered_at = none;
    } in
    (sweep (record s { requests = insert id r s.requests }) now, r)

unfoldable pub got : Store → Text → Result (Request × Option Response)
got s id = elim (lookup id s.requests) [
  | none ↦ err not_found
  | some r ↦ ok (r, lookup id s.responses)
]

unfoldable pub get : Store → Text → Result (Request × Option Response)
unfolding got
get s id = if valid_id id then got s id else err not_found

unfoldable pub updated_with : Store → ℕ → Text → (Request → Request) → Result (Store × Request)
updated_with s now id fn = elim (lookup id s.requests) [
  | none ↦ err not_found
  | some r ↦
      let q = fn r in
      let q' = record q { updated = now } in
      ok (record s { requests = insert id q' s.requests }, q')
]

unfoldable pub update : Store → ℕ → Text → (Request → Request) → Result (Store × Request)
unfolding updated_with
update s now id fn = if valid_id id then updated_with s now id fn else err not_found

unfoldable pub write_reply : Store → ℕ → Text → Text → Text → Request → Store × Response
unfolding sweep
write_reply s now id from body r =
    let resp : Response = record { id = id; from = from; body = body; created = now } in
    (
      sweep
          (record s {
            responses = insert id resp s.responses;
            requests =
                insert id (record r { status = replied; error = []; updated = now }) s.requests;
          })
          now,
      resp,
    )

unfoldable pub replied_to : Store → ℕ → Text → Text → Text → Result (Store × Response)
unfolding write_reply
replied_to s now id from body = elim (lookup id s.requests) [
  | none ↦ err not_found
  | some r ↦
      if is_some (lookup id s.responses)
      then err already_replied
      else ok (write_reply s now id from body r)
]

unfoldable pub reply : Store → ℕ → Text → Text → Text → Result (Store × Response)
unfolding replied_to
reply s now id from body = if valid_id id then replied_to s now id from body else err not_found

-- `List`, newest first; `none` asks for every status.
unfoldable pub status_eq : Status → Status → Bool
status_eq queued queued = true
status_eq delivered delivered = true
status_eq replied replied = true
status_eq blocked blocked = true
status_eq failed failed = true
status_eq expired expired = true
status_eq _ _ = false

unfoldable pub wanted : Option Status → Request → Bool
unfolding status_eq
wanted none r = true
wanted (some st) r = status_eq r.status st

unfoldable pub listing : Option Status → List Text → Map Request → List Request
unfolding wanted
listing st [] m = []
listing st (id ∷ ids) m = elim (lookup id m) [
  | none ↦ listing st ids m
  | some r ↦ if wanted st r then r ∷ listing st ids m else listing st ids m
]

unfoldable pub list : Store → Option Status → List Request
unfolding listing ids_locked
list s st = listing st (reverse (ids_locked s)) s.requests
