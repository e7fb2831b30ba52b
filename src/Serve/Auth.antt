-- ===== src/Serve/Auth.antt =====
-- internal/serve/auth.go and authlock.go: the credentials of one process, and the state file that it
-- shares with others. The file is what it holds, or nothing where it cannot be read; whether a write
-- succeeds is the argument `written`. A time is a number of nanoseconds, and the zero time is `none`. The hash, the
-- random tokens and the password check are arguments.
pub mod Access
pub mod Admin
pub mod Pairing
pub mod Devices
pub mod Processes
pub mod Capped
pub mod Spared
use Prim.Native.Nat.{min}
use herdr_expose.Serve.RateLimiter.{RateLimiter, second}
use herdr_expose.Prelude.Lists.{take, any_of, is_empty, keep_if, length}
use herdr_expose.Prelude.{
  ℕ, zero, suc, ◌+◌, ◌-◌, ◌*◌, ◌/◌, ◌%◌, ◌^◌, ◌≤◌, ◌<◌, ◌≡◌, refl, sym, ap, ap₂, subst, ◌∙◌, ◌≢◌,
  ◌↔◌, ◌⊎◌, inl, inr, Bool, true, false, not, ◌&&◌, ◌||◌, Option, none, some, List, [], ◌∷◌, ◌++◌,
  map, append-nil, append_assoc, arith,
}
use herdr_expose.Prelude.Tests.{
  or_zero, ltb, leb, ◌==◌, ==_iff, if◌then◌else◌, Bool-cases, Option-cases,
}
use herdr_expose.Prelude.Text.{text_eq, Text}

abbrev pub pairing_ttl : ℕ
pairing_ttl = 600 * second

abbrev pub device_ttl : ℕ
device_ttl = 2592000 * second

abbrev pub max_devices : ℕ
max_devices = 32

abbrev pub last_seen_persist_interval : ℕ
last_seen_persist_interval = 60 * second

pub record DeviceRecord : Type 0 where
  pub id : Text
  pub name : Text
  pub token_sha : Text
  pub created_at : ℕ
  pub last_seen : Option ℕ
  pub last_ip : Text
  pub user_agent : Text
  pub expires_at : Option ℕ

pub record PairingRecord : Type 0 where
  pub sha : Text
  pub expires : ℕ
  pub name : Text

pub record AuthState : Type 0 where
  pub pairing : List PairingRecord
  pub server_token_sha : Text
  pub devices : List DeviceRecord
  pub password_hash : Text

pub record Auth : Type 0 where
  pub state : AuthState
  pub disk : Option AuthState
  pub limiter : RateLimiter
  pub login_limiter : RateLimiter
  pub origins : List Text
  pub deadline : Option ℕ

-- `!t.IsZero() && now.After(t)`.
abbrev pub past : Option ℕ → ℕ → Bool
past none now = false
past (some t) now = ltb t now

-- What the file says; an empty server token on disk does not replace one in memory.
unfoldable pub merged : AuthState → AuthState → AuthState
merged old fresh = record fresh {
  server_token_sha =
      if is_empty fresh.server_token_sha then old.server_token_sha else fresh.server_token_sha;
}

unfoldable pub reload : Auth → Auth
unfolding merged
reload a = elim a.disk [ none ↦ a | some fresh ↦ record a { state = merged a.state fresh } ]

unfoldable pub save : Bool → Auth → Auth × Bool
save written a = if written then (record a { disk = some a.state }, true) else (a, false)

unfoldable pub commit : Bool → (AuthState → AuthState) → Auth → Auth × Bool
unfolding save reload
commit written mutate a = let b = reload a in save written (record b { state = mutate b.state })

abbrev pub is_at : ℕ → Option ℕ → Bool
is_at t none = false
is_at t (some u) = u == t

unfoldable pub set_deadline : Bool → Option ℕ → Auth → Auth × Bool
unfolding save
set_deadline written none a = (record a { deadline = none }, true)
set_deadline written (some t) a =
    let st = a.state in
    let moved = any_of (λ (d : DeviceRecord). not (is_at t d.expires_at)) st.devices in
    let clamped = any_of (λ (p : PairingRecord). ltb t p.expires) st.pairing in
    let b = record a {
      deadline = some t;
      state = record st {
        devices = map (λ (d : DeviceRecord). record d { expires_at = some t }) st.devices;
        pairing = map (λ (p : PairingRecord). record p { expires = min p.expires t }) st.pairing;
      };
    } in
    if moved || clamped then save written b else (b, true)

-- The first device with the id.
unfoldable pub remove_device : Text → List DeviceRecord → List DeviceRecord
remove_device id [] = []
remove_device id (d ∷ ds) = if text_eq d.id id then ds else d ∷ remove_device id ds

unfoldable pub revoke_device : Bool → Text → Auth → Auth × Bool
unfolding save remove_device
revoke_device written id a =
    if any_of (λ (d : DeviceRecord). text_eq d.id id) a.state.devices
    then save written
        (record a { state = record (a.state) { devices = remove_device id a.state.devices } })
    else (a, false)

abbrev pub seen_at : DeviceRecord → ℕ
seen_at d = or_zero d.last_seen

-- `sort.Slice`, the last seen first. Where two were seen at the same time the source may order them
-- otherwise.
unfoldable pub insert_recent : DeviceRecord → List DeviceRecord → List DeviceRecord
insert_recent d [] = d ∷ []
insert_recent d (e ∷ es) =
    let rest = insert_recent d es in if ltb (seen_at d) (seen_at e) then e ∷ rest else d ∷ e ∷ es

unfoldable pub sort_recent : List DeviceRecord → List DeviceRecord
unfolding insert_recent
sort_recent [] = []
sort_recent (d ∷ ds) = insert_recent d (sort_recent ds)

unfoldable pub evict : List DeviceRecord → List DeviceRecord
unfolding sort_recent
evict ds = if leb (length ds) max_devices then ds else take max_devices (sort_recent ds)

unfoldable pub gc_pairing : ℕ → List PairingRecord → List PairingRecord
gc_pairing now ps = keep_if (λ (p : PairingRecord). ltb now p.expires) ps

-- The last record of the hash, as the loop without a `break` finds it, and the others.
unfoldable pub take_last : Text → List PairingRecord → Option (PairingRecord × List PairingRecord)
take_last sum [] = none
take_last sum (p ∷ ps) = elim (take_last sum ps) [
  | some (hit, rest) ↦ some (hit, p ∷ rest)
  | none ↦ if text_eq sum p.sha then some (p, ps) else none
]

abbrev pub upper : ℕ → ℕ
upper c = if leb 97 c && leb c 122 then c - 32 else c

abbrev pub first_of : Text → Text → Text
first_of a b = if is_empty a then b else a
