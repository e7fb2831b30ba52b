-- ===== src/Serve/Auth/Spared.antt =====
-- What a request of internal/serve/auth.go leaves of the state file that other processes write too.
use herdr_expose.Prelude.Lists.{is_empty}
use herdr_expose.Prelude.Text.{Text, text_eq}
use herdr_expose.Prelude.{ℕ, ◌≡◌, refl, Bool, not, ◌&&◌, ◌||◌, Option, none, some, List, arith}
use herdr_expose.Prelude.Tests.{if_split}
use herdr_expose.Serve.Auth.{
  Auth, AuthState, DeviceRecord, reload, merged, remove_device, save, commit, past,
}
use herdr_expose.Serve.Auth.Access.{
  idle, is_stale, use_id, used, Who, authenticate, admit, reject, revoked, refreshed, with_devices,
}

-- The codes and the password that the file holds are still what `st` says.
abbrev pub Spared : AuthState → Auth → Type 0
Spared st a =
    (st' : AuthState) × (a.disk ≡ some st')
    × (st'.pairing ≡ st.pairing)
    × (st'.password_hash ≡ st.password_hash)

reload_same :
    (a : Auth) (st : AuthState)
    → a.disk ≡ some st
    → ((reload a).state.pairing ≡ st.pairing)
      × ((reload a).state.password_hash ≡ st.password_hash)
      × ((reload a).disk ≡ some st)
unfolding reload merged
reload_same a st e = (ground (arith, e), ground (arith, e), ground (arith, e))

commit-Spared :
    (written : Bool) (f : List DeviceRecord → List DeviceRecord) (a : Auth) (st : AuthState)
    → a.disk ≡ some st
    → Spared st (commit written (with_devices f) a).0
unfolding commit save
commit-Spared written f a st e =
    let (p, q, r) = reload_same a st e in
    if_split (λ (x : Auth × Bool). Spared st x.0) written
      (λ _. (with_devices f (reload a).state, refl, p, q)) λ _. (st, r, refl, refl)

admit-Spared :
    (written : Bool) (now : ℕ) (ip agent sum : Text) (o : Option DeviceRecord) (a : Auth)
    (st : AuthState)
    → a.disk ≡ some st
    → Spared st (admit written now ip agent sum o a).0
unfolding admit reject revoked refreshed
admit-Spared written now ip agent sum none a st e = (st, e, refl, refl)
admit-Spared written now ip agent sum (some d) a st e =
    if_split (λ (x : Auth × Option Who). Spared st x.0)
      (past d.expires_at now || idle d.last_seen now)
      (λ _. commit-Spared written (remove_device d.id) (record a { state = _ }) st e)
      λ _.
        if_split (Spared st) (is_stale d.last_seen now)
          (λ _.
            commit-Spared written (use_id d.id (used now ip (used now ip agent d).user_agent))
              (record a { state = _ }) st e)
          λ _. (st, e, refl, refl)

-- A request, whatever its token, leaves the pairing codes and the password of the file as it finds
-- them, though the process that serves it never read them.
pub authenticate-Spared :
    (hash : Text → Text) (written : Bool) (now : ℕ) (token ip agent : Text) (a : Auth)
    (st : AuthState)
    → a.disk ≡ some st
    → Spared st (authenticate hash written now token ip agent a).0
unfolding authenticate reject
authenticate-Spared hash written now token ip agent a st e =
    let P = λ (x : Auth × Option Who). Spared st x.0 in
    if_split P (is_empty token) (λ _. (st, e, refl, refl))
      λ _.
        if_split P (past a.deadline now) (λ _. (st, e, refl, refl))
          λ _.
            if_split P
              (not (is_empty a.state.server_token_sha)
                && text_eq (hash token) a.state.server_token_sha)
              (λ _. (st, e, refl, refl))
              λ _. admit-Spared written now ip agent (hash token) _ a st e
