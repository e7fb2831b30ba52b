-- ===== src/Tests/Credentials.antt =====
-- Authentication, pairing codes, passwords and devices at concrete inputs.
use herdr_expose.Serve.RateLimiter.{new_rate_limiter, allow, maybe_gc, spend, reset}
use herdr_expose.Prelude.Map.{insert, lookup, delete}
use herdr_expose.Prelude.Text.{Text, bytes, text_eq, trim_space}
use herdr_expose.Prelude.{◌≡◌, refl, Bool, true, Option, none, some, [], ◌∷◌}
use herdr_expose.Serve.Auth.{
  Auth, AuthState, DeviceRecord, reload, merged, save, evict, set_deadline, gc_pairing, take_last,
}
use herdr_expose.Serve.Auth.Access.{
  device, authenticate, admit, find_device, redeem, exchange, enroll, minted,
}
use herdr_expose.Serve.Auth.Pairing.{redeem_once}
use herdr_expose.Serve.Auth.Devices.{authenticate-Admits, Admits}
use herdr_expose.Serve.Auth.Processes.{deadline_shuts, Step, Steps}
use herdr_expose.Serve.Auth.Spared.{authenticate-Spared, Spared}

abbrev phone : DeviceRecord
phone = record {
  id = bytes "d1";
  name = bytes "phone";
  token_sha = bytes "tok";
  created_at = 1;
  last_seen = some 5;
  last_ip = [];
  user_agent = [];
  expires_at = none;
}

abbrev tablet : DeviceRecord
tablet = record phone { id = bytes "d2"; last_seen = some 9 }

abbrev on_disk : AuthState
on_disk = record {
  pairing = record { sha = bytes "AB"; expires = 100; name = bytes "phone" } ∷ [];
  server_token_sha = bytes "srv";
  devices = phone ∷ [];
  password_hash = bytes "pw";
}

abbrev daemon : Auth
daemon = record {
  state = record on_disk { pairing = [] };
  disk = some on_disk;
  limiter = new_rate_limiter 10 1 2;
  login_limiter = new_rate_limiter 5 1 10;
  origins = [];
  deadline = none;
}

abbrev same : Text → Text
same t = t

abbrev verify : Text → Text → Bool
verify a b = text_eq a b

abbrev redeemed_once : Auth × Option DeviceRecord
redeemed_once = redeem same true 10 11 (bytes "t1") (bytes "d3") (bytes " ab") [] [] [] daemon

redeem_once_example :
    (redeem same true 20 21
      (bytes "t2")
      (bytes "d4")
      (bytes " ab")
      []
      []
      []
      (record daemon { disk = redeemed_once.0.disk })).1
    ≡ none
unfolding redeem exchange enroll minted reload merged save gc_pairing take_last evict allow maybe_gc
    spend reset new_rate_limiter lookup insert delete text_eq trim_space
redeem_once_example =
    redeem_once same true true 10 11 20 21 (bytes "t1") (bytes "t2") (bytes "d3") (bytes "d4")
      (bytes " ab") [] [] [] [] [] [] daemon (record daemon { disk = redeemed_once.0.disk }) refl
      refl refl

authenticate-Admits_example :
    Admits (bytes "tok") 7 daemon.state (device (bytes "d1") (bytes "phone"))
unfolding authenticate admit find_device text_eq
authenticate-Admits_example = authenticate-Admits same true 7 (bytes "tok") [] [] daemon refl

authenticate-Spared_example : Spared on_disk (authenticate same true 7 (bytes "tok") [] [] daemon).0
authenticate-Spared_example =
    authenticate-Spared same true 7 (bytes "tok") [] [] daemon on_disk refl

abbrev shut : Auth
shut = (set_deadline true (some 50) daemon).0

abbrev paired : Auth
paired = (redeem same true 20 21 (bytes "t2") (bytes "d4") (bytes "ab") [] [] [] shut).0

deadline_shuts_example :
    (authenticate same true 51 (bytes "srv") [] [] (set_deadline true (some 40) paired).0).1 ≡ none
deadline_shuts_example =
    deadline_shuts same verify some true 51 (bytes "srv") [] [] daemon
      (set_deadline true (some 40) paired).0
      (Steps.then_
        (Steps.then_ (Steps.then_ (Steps.here daemon) (Step.deadline_set true (some 50) daemon))
          (Step.redeemed true 20 21 (bytes "t2") (bytes "d4") (bytes "ab") [] [] [] shut))
        (Step.deadline_set true (some 40) paired))
      refl
