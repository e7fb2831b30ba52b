-- ===== src/Serve/Auth/Capped.antt =====
-- The number of devices after a redeemed code or a login of internal/serve/auth.go.
use herdr_expose.Serve.RateLimiter.{allow}
use herdr_expose.Prelude.Lists.{snoc, is_empty, length}
use herdr_expose.Prelude.Text.{Text, bytes}
use herdr_expose.Prelude.{ℕ, ◌≤◌, ◌≡◌, Bool, true, false, not, ◌||◌, Option, none, some, List, ◌++◌}
use herdr_expose.Prelude.Tests.{if_split, ltb}
use herdr_expose.Serve.Auth.{Auth, DeviceRecord, PairingRecord, reload, save, max_devices, past}
use herdr_expose.Serve.Auth.Access.{
  redeem, login, exchange, forgiven, relogged, enroll, login_allowed,
}
use herdr_expose.Serve.Auth.Devices.{length-evict}

abbrev Few : Auth × Option DeviceRecord → Type 0
Few (a, none) = Unit {0}
Few (a, some d) = length a.state.devices ≤ max_devices

enroll-Few : (written : Bool) (d : DeviceRecord) (a : Auth) → Few (enroll written d a)
unfolding enroll save
enroll-Few true d a = length-evict (snoc a.state.devices d)
enroll-Few false d a = tt

exchange-Few :
    (written : Bool) (later : ℕ) (mint : Text → DeviceRecord)
    (o : Option (PairingRecord × List PairingRecord)) (a : Auth)
    → Few (exchange written later mint o a)
unfolding exchange
exchange-Few written later mint none a = tt
exchange-Few written later mint (some (hit, rest)) a =
    if_split Few (ltb hit.expires later) (λ _. tt)
      λ _.
        enroll-Few written (mint hit.name)
          (record a { state = record (a.state) { pairing = rest } })

forgiven-Few :
    (key : Text) (x : Auth × Option DeviceRecord)
    → Few x
    → Few (forgiven key x) × Few (relogged key x)
forgiven-Few key (a, none) h = (tt, tt)
forgiven-Few key (a, some d) h = (h, h)

module _ (hash : Text → Text) where
  redeem-Few :
      (written : Bool) (now later : ℕ) (tok id code name ip agent : Text) (a : Auth)
      → Few (redeem hash written now later tok id code name ip agent a)
  unfolding redeem
  redeem-Few written now later tok id code name ip agent a =
      if_split Few (allow a.limiter now (bytes "pair:" ++ ip)).1
        (λ _. (forgiven-Few _ _ (exchange-Few written later _ _ _)).0) λ _. tt

  login-Few :
      (verify : Text → Text → Bool) (written : Bool) (now : ℕ)
      (tok id password name ip agent : Text) (a : Auth)
      → Few (login hash verify written now tok id password name ip agent a)
  unfolding login
  login-Few verify written now tok id password name ip agent a =
      let b = reload (record a {
        login_limiter = (login_allowed a.login_limiter now (bytes "login:" ++ ip)).0;
      }) in
      if_split Few (not (login_allowed a.login_limiter now (bytes "login:" ++ ip)).1) (λ _. tt)
        λ _.
          if_split Few
            (is_empty b.state.password_hash
              || (past b.deadline now || not (verify password b.state.password_hash)))
            (λ _. tt) λ _. (forgiven-Few _ _ (enroll-Few written _ b)).1

  Few-of :
      (x : Auth × Option DeviceRecord) {d : DeviceRecord}
      → Few x
      → x.1 ≡ some d
      → length x.0.state.devices ≤ max_devices
  Few-of (b, none) h e = absurd (cc (e))
  Few-of (b, some c) h e = h

  -- A code that is exchanged for a device leaves no more than 32 devices.
  redeem-max_devices :
      (written : Bool) (now later : ℕ) (tok id code name ip agent : Text) (a : Auth)
      {d : DeviceRecord}
      → (redeem hash written now later tok id code name ip agent a).1 ≡ some d
      → length (redeem hash written now later tok id code name ip agent a).0.state.devices
        ≤ max_devices
  redeem-max_devices written now later tok id code name ip agent a e =
      Few-of (redeem hash written now later tok id code name ip agent a)
        (redeem-Few written now later tok id code name ip agent a) e

  -- So does a password.
  login-max_devices :
      (verify : Text → Text → Bool) (written : Bool) (now : ℕ)
      (tok id password name ip agent : Text) (a : Auth) {d : DeviceRecord}
      → (login hash verify written now tok id password name ip agent a).1 ≡ some d
      → length (login hash verify written now tok id password name ip agent a).0.state.devices
        ≤ max_devices
  login-max_devices verify written now tok id password name ip agent a e =
      Few-of (login hash verify written now tok id password name ip agent a)
        (login-Few verify written now tok id password name ip agent a) e
