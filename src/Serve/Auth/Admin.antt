-- ===== src/Serve/Auth/Admin.antt =====
-- The operations of internal/serve/auth.go that the operator calls, and what a request carries.
use Prim.Native.Nat.{min}
use herdr_expose.Prelude.Lists.{is_empty, take, drop, length}
use herdr_expose.Prelude.Text.{Text, bytes, text_eq, member, has_prefix, split_on, trim_space}
use herdr_expose.Prelude.{
  ℕ, ◌+◌, Bool, true, false, not, ◌&&◌, ◌||◌, Option, none, some, List, [], ◌∷◌, map,
}
use herdr_expose.Prelude.Tests.{ltb, leb, if◌then◌else◌}
use herdr_expose.Serve.Auth.{Auth, AuthState, DeviceRecord, save, reload, commit, device_ttl, upper}

abbrev pub min_password_len : ℕ
min_password_len = 8

-- The token is drawn by the caller of the model; nothing is returned of one that is there already.
unfoldable pub ensure_server_token : (Text → Text) → Bool → Text → Auth → Auth × Option Text
unfolding save
ensure_server_token hash written tok a =
    let (b, done) =
      save written (record a { state = record (a.state) { server_token_sha = hash tok } }) in
    if not (is_empty a.state.server_token_sha)
    then (a, none)
    else (b, if done then some tok else none)

unfoldable pub reset_server_token : (Text → Text) → Bool → Text → Auth → Auth × Option Text
unfolding save
reset_server_token hash written tok a =
    let (b, done) =
      save written (record a { state = record (a.state) { server_token_sha = hash tok } }) in
    (b, if done then some tok else none)

abbrev pub with_password : Text → AuthState → AuthState
with_password encoded st = record st { password_hash = encoded }

-- The encoded hash is `none` where no salt could be drawn.
unfoldable pub set_password : (Text → Option Text) → Bool → Text → Auth → Auth × Bool
unfolding commit
set_password encode written plaintext a =
    if ltb (length plaintext) min_password_len then (a, false) else elim (encode plaintext) [
      | none ↦ (a, false)
      | some encoded ↦ commit written (with_password encoded) a
    ]

unfoldable pub clear_password : Bool → Auth → Auth × Bool
unfolding commit
clear_password written a = commit written (with_password []) a

unfoldable pub has_password : Auth → Auth × Bool
unfolding reload
has_password a = let b = reload a in (b, not (is_empty b.state.password_hash))

-- `time.Now().Add(DeviceTTL)` for a device that was never seen.
unfoldable pub device_expiry : ℕ → DeviceRecord → ℕ
device_expiry now d =
    let sliding : ℕ = elim d.last_seen [ none ↦ now + device_ttl | some t ↦ t + device_ttl ] in
    elim d.expires_at [ none ↦ sliding | some t ↦ min t sliding ]

abbrev pub lower : ℕ → ℕ
lower c = if leb 65 c && leb c 90 then c + 32 else c

unfoldable pub origin_allowed : Auth → Text → Bool
origin_allowed a origin =
    let o = map lower origin in
    if is_empty origin
    then true
    else member o a.origins
      || (has_prefix o (bytes "http://127.0.0.1:")
          || (has_prefix o (bytes "http://localhost:") || has_prefix o (bytes "http://[::1]:")))

unfoldable pub bearer_protocol : List Text → Text
bearer_protocol [] = []
bearer_protocol (p ∷ ps) =
    if has_prefix (trim_space p) (bytes "bearer.")
    then drop 7 (trim_space p)
    else bearer_protocol ps

-- `strings.EqualFold` against ASCII letters; the header, the query's token and the subprotocols.
unfoldable pub bearer_from : Text → Text → Text → Text
unfolding bearer_protocol
bearer_from header query protocols =
    if ltb 7 (length header) && text_eq (map upper (take 7 header)) (bytes "BEARER ")
    then trim_space (drop 7 header)
    else if not (is_empty query)
    then query
    else bearer_protocol (split_on 44 protocols)
