-- ===== src/Serve/Auth/Access.antt =====
-- The operations of internal/serve/auth.go that check, mint and exchange credentials.

use herdr_expose.Prelude.Lists.{snoc, is_empty}
use Prim.Native.Nat.{min}
use herdr_expose.Serve.RateLimiter.{allow, reset, RateLimiter}
use herdr_expose.Serve.Auth.{
  first_of, upper, take_last, PairingRecord, AuthState, evict, past, remove_device, gc_pairing,
  Auth, last_seen_persist_interval, DeviceRecord, pairing_ttl, commit, device_ttl, save, reload,
}
use herdr_expose.Prelude.{
  ℕ, ◌+◌, ◌-◌, Bool, true, false, not, ◌&&◌, ◌||◌, Option, none, some, List, [], ◌∷◌, ◌++◌, map,
}
use herdr_expose.Prelude.Tests.{is_some, ltb, leb, if◌then◌else◌}
use herdr_expose.Prelude.Text.{trim_space, text_eq, bytes, Text}

pub data Who : Type 0 where
  server : Who
  device : Text → Text → Who

-- `now.Sub(last) > DeviceTTL`: the distance to the zero time is the longest there is.
abbrev pub idle : Option ℕ → ℕ → Bool
idle none now = true
idle (some t) now = ltb device_ttl (now - t)

-- The last device of the token's hash.
unfoldable pub find_device : Text → List DeviceRecord → Option DeviceRecord
find_device sum [] = none
find_device sum (d ∷ ds) = elim (find_device sum ds) [
  | some e ↦ some e
  | none ↦ if text_eq sum d.token_sha then some d else none
]

abbrev pub used : ℕ → Text → Text → DeviceRecord → DeviceRecord
used now ip agent d = record d {
  last_seen = some now;
  last_ip = ip;
  user_agent = if is_empty agent then d.user_agent else agent;
}

-- `found` is a pointer into the list: the last device of the hash is changed.
unfoldable pub use_found :
    Text → (DeviceRecord → DeviceRecord) → List DeviceRecord → List DeviceRecord
unfolding find_device
use_found sum f [] = []
use_found sum f (d ∷ ds) =
    if is_some (find_device sum ds)
    then d ∷ use_found sum f ds
    else if text_eq sum d.token_sha
    then f d ∷ ds
    else d ∷ ds

-- The function that `Authenticate` commits: the first device of the id is changed.
unfoldable pub use_id : Text → (DeviceRecord → DeviceRecord) → List DeviceRecord → List DeviceRecord
use_id id f [] = []
use_id id f (d ∷ ds) = if text_eq d.id id then f d ∷ ds else d ∷ use_id id f ds

abbrev pub with_devices : (List DeviceRecord → List DeviceRecord) → AuthState → AuthState
with_devices f st = record st { devices = f st.devices }

unfoldable pub reject : Auth → ℕ → Text → Auth
reject a now ip = record a { limiter = (allow a.limiter now (bytes "authfail:" ++ ip)).0 }

unfoldable pub revoked : Bool → Text → Auth → Auth
unfolding commit remove_device
revoked written id a =
    (commit written (with_devices (remove_device id))
      (record a { state = with_devices (remove_device id) a.state })).0

abbrev pub is_stale : Option ℕ → ℕ → Bool
is_stale none now = true
is_stale (some t) now = leb last_seen_persist_interval (now - t)

unfoldable pub refreshed : Bool → ℕ → Text → Text → Text → DeviceRecord → Auth → Auth
unfolding commit use_found use_id
refreshed written now ip agent sum d a =
    let b = record a { state = with_devices (use_found sum (used now ip agent)) a.state } in
    let kept =
      (if is_stale d.last_seen now
        then (commit written
            (with_devices (use_id d.id (used now ip (used now ip agent d).user_agent))) b).0
        else b) in
    record kept { limiter = reset kept.limiter (bytes "authfail:" ++ ip) }

unfoldable pub admit :
    Bool → ℕ → Text → Text → Text → Option DeviceRecord → Auth → Auth × Option Who
unfolding reject revoked refreshed
admit written now ip agent sum none a = (reject a now ip, none)
admit written now ip agent sum (some d) a =
    if past d.expires_at now || idle d.last_seen now
    then (revoked written d.id a, none)
    else (refreshed written now ip agent sum d a, some (device d.id d.name))

unfoldable pub authenticate :
    (Text → Text) → Bool → ℕ → Text → Text → Text → Auth → Auth × Option Who
unfolding admit find_device reject
authenticate hash written now token ip agent a =
    if is_empty token
    then (reject a now ip, none)
    else if past a.deadline now
    then (reject a now ip, none)
    else if not (is_empty a.state.server_token_sha) && text_eq (hash token) a.state.server_token_sha
    then (a, some server)
    else admit written now ip agent (hash token) (find_device (hash token) a.state.devices) a

abbrev pub code_expiry : Option ℕ → ℕ → ℕ
code_expiry none now = now + pairing_ttl
code_expiry (some t) now = min (now + pairing_ttl) t

abbrev pub add_pairing : ℕ → PairingRecord → AuthState → AuthState
add_pairing now p st = record st { pairing = snoc (gc_pairing now st.pairing) p }

-- The code is drawn by the caller of the model.
unfoldable pub new_pairing_code : (Text → Text) → Bool → ℕ → Text → Text → Auth → Auth × Bool
unfolding commit gc_pairing
new_pairing_code hash written now code name a =
    let p : PairingRecord = record {
      sha = hash code;
      expires = code_expiry a.deadline now;
      name = name;
    } in
    commit written (add_pairing now p) a

-- The device that a redeemed code or a login mints.
unfoldable pub minted :
    (Text → Text) → ℕ → Option ℕ → Text → Text → Text → Text → Text → DeviceRecord
minted hash now deadline tok id name ip agent = record {
  id = id;
  name = first_of name (bytes "device");
  token_sha = hash tok;
  created_at = now;
  last_seen = some now;
  last_ip = ip;
  user_agent = agent;
  expires_at = deadline;
}

unfoldable pub enroll : Bool → DeviceRecord → Auth → Auth × Option DeviceRecord
unfolding save evict
enroll written d a =
    let (b, done) =
      save written (record a { state = with_devices (λ ds. evict (snoc ds d)) a.state }) in
    (b, if done then some d else none)

abbrev pub pair_key : Text → Text
pair_key ip = bytes "pair:" ++ ip

-- The end of a redemption or a login that succeeded: its bucket is full again.
abbrev pub forgiven : Text → Auth × Option DeviceRecord → Auth × Option DeviceRecord
forgiven key (a, none) = (a, none)
forgiven key (a, some d) = (record a { limiter = reset a.limiter key }, some d)

unfoldable pub exchange :
    Bool
    → ℕ
    → (Text → DeviceRecord)
    → Option (PairingRecord × List PairingRecord)
    → Auth
    → Auth × Option DeviceRecord
unfolding save enroll
exchange written later mint none a = (a, none)
exchange written later mint (some (hit, rest)) a =
    let b = record a { state = record (a.state) { pairing = rest } } in
    if ltb hit.expires later then ((save written b).0, none) else enroll written (mint hit.name) b

unfoldable pub redeem :
    (Text → Text)
    → Bool
    → ℕ
    → ℕ
    → Text
    → Text
    → Text
    → Text
    → Text
    → Text
    → Auth
    → Auth × Option DeviceRecord
unfolding reload gc_pairing take_last exchange minted
redeem hash written now later tok id code name ip agent a =
    let (l, ok_) = allow a.limiter now (pair_key ip) in
    let b = reload (record a { limiter = l }) in
    let c = record b { state = record (b.state) { pairing = gc_pairing now b.state.pairing } } in
    let mint = λ (hit : Text). minted hash later a.deadline tok id (first_of name hit) ip agent in
    if ok_
    then forgiven (pair_key ip) (
        exchange written later mint (take_last (hash (map upper (trim_space code))) c.state.pairing)
          c)
    else (record a { limiter = l }, none)

abbrev pub relogged : Text → Auth × Option DeviceRecord → Auth × Option DeviceRecord
relogged key (a, none) = (a, none)
relogged key (a, some d) = (record a { login_limiter = reset a.login_limiter key }, some d)

-- Both buckets of a login: the one of all addresses first, and the second only where it allows.
unfoldable pub login_allowed : RateLimiter → ℕ → Text → RateLimiter × Bool
login_allowed l now key =
    let (l1, all) = allow l now (bytes "login") in if all then allow l1 now key else (l1, false)

unfoldable pub login :
    (Text → Text)
    → (Text → Text → Bool)
    → Bool
    → ℕ
    → Text
    → Text
    → Text
    → Text
    → Text
    → Text
    → Auth
    → Auth × Option DeviceRecord
unfolding reload login_allowed minted enroll
login hash verify written now tok id password name ip agent a =
    let key = bytes "login:" ++ ip in
    let (l, ok_) = login_allowed a.login_limiter now key in
    let b = reload (record a { login_limiter = l }) in
    if not ok_
    then (record a { login_limiter = l }, none)
    else if is_empty b.state.password_hash
        || (past b.deadline now || not (verify password b.state.password_hash))
    then (b, none)
    else relogged key (enroll written (minted hash now b.deadline tok id name ip agent) b)
