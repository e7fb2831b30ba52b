-- ===== src/Serve/Auth/Processes.antt =====
-- What the steps of one process of internal/serve/auth.go do to its deadline.
use herdr_expose.Serve.RateLimiter.{allow}
use herdr_expose.Prelude.Lists.{is_empty, length}
use herdr_expose.Prelude.Text.{Text, bytes, text_eq}
use herdr_expose.Prelude.{
  ℕ, ◌≡◌, refl, ap, ◌∙◌, Bool, true, false, not, ◌&&◌, ◌||◌, Option, none, some, List, [], ◌++◌,
  arith,
}
use herdr_expose.Prelude.Tests.{if_split, ltb}
use herdr_expose.Serve.Auth.{
  Auth, AuthState, DeviceRecord, PairingRecord, reload, save, commit, past, set_deadline,
  revoke_device,
}
use herdr_expose.Serve.Auth.Admin.{
  with_password, set_password, clear_password, has_password, reset_server_token,
  ensure_server_token,
}
use herdr_expose.Serve.Auth.Access.{
  add_pairing, code_expiry, Who, authenticate, admit, reject, revoked, refreshed, new_pairing_code,
  redeem, login, exchange, forgiven, relogged, enroll, login_allowed,
}

-- The steps of a process, with what the library's functions answer as parameters; another process
-- may have put anything in the file before a step.
module _ (hash : Text → Text) (verify : Text → Text → Bool) (encode : Text → Option Text) where
  pub data Step : Auth → Auth → Type 0 where
    other : (a : Auth) (disk : Option AuthState) → Step a (record a { disk = disk })
    authenticated :
        (written : Bool) (now : ℕ) (token ip agent : Text) (a : Auth)
        → Step a (authenticate hash written now token ip agent a).0
    coded :
        (written : Bool) (now : ℕ) (code name : Text) (a : Auth)
        → Step a (new_pairing_code hash written now code name a).0
    redeemed :
        (written : Bool) (now later : ℕ) (tok id code name ip agent : Text) (a : Auth)
        → Step a (redeem hash written now later tok id code name ip agent a).0
    logged_in :
        (written : Bool) (now : ℕ) (tok id password name ip agent : Text) (a : Auth)
        → Step a (login hash verify written now tok id password name ip agent a).0
    device_revoked : (written : Bool) (id : Text) (a : Auth) → Step a (revoke_device written id a).0
    token_ensured :
        (written : Bool) (tok : Text) (a : Auth) → Step a (ensure_server_token hash written tok a).0
    token_reset :
        (written : Bool) (tok : Text) (a : Auth) → Step a (reset_server_token hash written tok a).0
    password_set :
        (written : Bool) (plain : Text) (a : Auth) → Step a (set_password encode written plain a).0
    password_cleared : (written : Bool) (a : Auth) → Step a (clear_password written a).0
    password_asked : (a : Auth) → Step a (has_password a).0
    deadline_set : (written : Bool) (t : Option ℕ) (a : Auth) → Step a (set_deadline written t a).0

  pub data Steps : Auth → Auth → Type 0 where
    here : (a : Auth) → Steps a a
    then_ : {a b c : Auth} → Steps a b → Step b c → Steps a c

-- The deadline that was set last.
module _ {hash : Text → Text} {verify : Text → Text → Bool} {encode : Text → Option Text} where
  abbrev pub set_by : {a b : Auth} → Step hash verify encode a b → Option ℕ → Option ℕ
  set_by (deadline_set written t a) o = t
  set_by _ o = o

  abbrev pub last_set : {a b : Auth} → Steps hash verify encode a b → Option ℕ → Option ℕ
  last_set (here a) o = o
  last_set (then_ s t) o = set_by t (last_set s o)

commit-deadline :
    (written : Bool) (f : AuthState → AuthState) (a : Auth)
    → (commit written f a).0.deadline ≡ a.deadline
unfolding commit reload save
commit-deadline written f a = ground arith

admit-deadline :
    (written : Bool) (now : ℕ) (ip agent sum : Text) (o : Option DeviceRecord) (a : Auth)
    → (admit written now ip agent sum o a).0.deadline ≡ a.deadline
unfolding admit reject revoked refreshed commit save reload
admit-deadline written now ip agent sum none a = refl
admit-deadline written now ip agent sum (some d) a = ground arith

exchange-deadline :
    (written : Bool) (later : ℕ) (mint : Text → DeviceRecord)
    (o : Option (PairingRecord × List PairingRecord)) (a : Auth)
    → (exchange written later mint o a).0.deadline ≡ a.deadline
unfolding exchange enroll save
exchange-deadline written later mint none a = refl
exchange-deadline written later mint (some (hit, rest)) a = ground arith

abbrev Keeps {ℓ} : {R : Type ℓ} → Option ℕ → Auth × R → Type 0
Keeps t x = x.0.deadline ≡ t

module _ (hash : Text → Text) (verify : Text → Text → Bool) (encode : Text → Option Text) where
  authenticate-deadline :
      (written : Bool) (now : ℕ) (token ip agent : Text) (a : Auth)
      → Keeps a.deadline (authenticate hash written now token ip agent a)
  unfolding authenticate reject
  authenticate-deadline written now token ip agent a =
      if_split (Keeps a.deadline) (is_empty token) (λ _. refl)
        λ _.
          if_split (Keeps a.deadline) (past a.deadline now) (λ _. refl)
            λ _.
              if_split (Keeps a.deadline)
                (not (is_empty a.state.server_token_sha)
                  && text_eq (hash token) a.state.server_token_sha)
                (λ _. refl) λ _. admit-deadline written now ip agent (hash token) _ a

  forgiven-deadline :
      (t : Option ℕ) (key : Text) (x : Auth × Option DeviceRecord)
      → Keeps t x
      → Keeps t (forgiven key x) × Keeps t (relogged key x)
  forgiven-deadline t key (a, none) h = (h, h)
  forgiven-deadline t key (a, some d) h = (h, h)

  reload-deadline : (a : Auth) → (reload a).deadline ≡ a.deadline
  unfolding reload
  reload-deadline a = ground arith

  redeem-deadline :
      (written : Bool) (now later : ℕ) (tok id code name ip agent : Text) (a : Auth)
      → Keeps a.deadline (redeem hash written now later tok id code name ip agent a)
  unfolding redeem
  redeem-deadline written now later tok id code name ip agent a =
      if_split (Keeps a.deadline) (allow a.limiter now (bytes "pair:" ++ ip)).1
        (λ _.
          (forgiven-deadline a.deadline _ _
            (exchange-deadline written later _ _ _ ∙ reload-deadline (record a { limiter = _ }))).0)
        λ _. refl

  enroll-deadline :
      (written : Bool) (d : DeviceRecord) (a : Auth) → Keeps a.deadline (enroll written d a)
  unfolding enroll save
  enroll-deadline written d a = ground arith

  login-deadline :
      (written : Bool) (now : ℕ) (tok id password name ip agent : Text) (a : Auth)
      → Keeps a.deadline (login hash verify written now tok id password name ip agent a)
  unfolding login
  login-deadline written now tok id password name ip agent a =
      let b = reload (record a {
        login_limiter = (login_allowed a.login_limiter now (bytes "login:" ++ ip)).0;
      }) in
      let same : b.deadline ≡ a.deadline = reload-deadline _ in
      if_split (Keeps a.deadline) (not (login_allowed a.login_limiter now (bytes "login:" ++ ip)).1)
        (λ _. refl)
        λ _.
          if_split (Keeps a.deadline)
            (is_empty b.state.password_hash
              || (past b.deadline now || not (verify password b.state.password_hash)))
            (λ _. same)
            λ _. (forgiven-deadline a.deadline _ _ (enroll-deadline written _ b ∙ same)).1

  new_pairing_code-deadline :
      (w : Bool) (now : ℕ) (code name : Text) (a : Auth)
      → Keeps a.deadline (new_pairing_code hash w now code name a)
  unfolding new_pairing_code
  new_pairing_code-deadline w now code name a =
      commit-deadline w
        (add_pairing now
          (record { sha = hash code; expires = code_expiry a.deadline now; name = name }))
        a

  clear_password-deadline : (w : Bool) (a : Auth) → Keeps a.deadline (clear_password w a)
  unfolding clear_password
  clear_password-deadline w a = commit-deadline w (with_password []) a

  stored-deadline :
      (w : Bool) (a : Auth) (o : Option Text)
      → Keeps {R = Bool} a.deadline
          (elim o [ none ↦ (a, false) | some encoded ↦ commit w (with_password encoded) a ])
  stored-deadline w a none = refl
  stored-deadline w a (some e) = commit-deadline w (with_password e) a

  set_password-deadline :
      (w : Bool) (plain : Text) (a : Auth) → Keeps a.deadline (set_password encode w plain a)
  unfolding set_password
  set_password-deadline w plain a =
      if_split (Keeps a.deadline) (ltb (length plain) 8) (λ _. refl)
        λ _. stored-deadline w a (encode plain)

  set_deadline-deadline :
      (written : Bool) (t : Option ℕ) (a : Auth) → (set_deadline written t a).0.deadline ≡ t
  unfolding set_deadline save
  set_deadline-deadline written none a = refl
  set_deadline-deadline written (some t) a = ground arith

  Step-deadline : {a b : Auth} (s : Step hash verify encode a b) → b.deadline ≡ set_by s a.deadline
  Step-deadline (other a disk) = refl
  Step-deadline (authenticated written now token ip agent a) =
      authenticate-deadline written now token ip agent a
  Step-deadline (coded written now code name a) = new_pairing_code-deadline written now code name a
  Step-deadline (redeemed written now later tok id code name ip agent a) =
      redeem-deadline written now later tok id code name ip agent a
  Step-deadline (logged_in written now tok id password name ip agent a) =
      login-deadline written now tok id password name ip agent a
  Step-deadline (device_revoked written id a) = unfold revoke_device save in ground arith
  Step-deadline (token_ensured written tok a) = unfold ensure_server_token save in ground arith
  Step-deadline (token_reset written tok a) = unfold reset_server_token save in ground arith
  Step-deadline (password_set written plain a) = set_password-deadline written plain a
  Step-deadline (password_cleared written a) = clear_password-deadline written a
  Step-deadline (password_asked a) = unfold has_password in reload-deadline a
  Step-deadline (deadline_set written t a) = set_deadline-deadline written t a

  set_by-deadline :
      {a b : Auth} (s : Step hash verify encode a b) (o : Option ℕ)
      → a.deadline ≡ o
      → b.deadline ≡ set_by s o
  set_by-deadline {a} {b} s o e = Step-deadline s ∙ ap (set_by s) e

  Steps-deadline :
      {a b : Auth} (s : Steps hash verify encode a b) → b.deadline ≡ last_set s a.deadline
  Steps-deadline (here a) = refl
  Steps-deadline (then_ s t) = set_by-deadline t _ (Steps-deadline s)

  -- Whatever steps the process takes, `SetDeadline` among them, and whatever other processes write to
  -- the file in between, no token is let in when the deadline that was set last is over: not the
  -- server's own, and not one that a code or a password was exchanged for meanwhile. Where no step
  -- sets one, that is the deadline which the process began with.
  pub deadline_shuts :
      (written : Bool) (now : ℕ) (token ip agent : Text) (a b : Auth)
      (s : Steps hash verify encode a b)
      → past (last_set s a.deadline) now ≡ true
      → (authenticate hash written now token ip agent b).1 ≡ none
  unfolding authenticate
  deadline_shuts written now token ip agent a b s h =
      let shut : past b.deadline now ≡ true = ap (λ o. past o now) (Steps-deadline s) ∙ h in
      if_split (λ (x : Auth × Option Who). x.1 ≡ none) (is_empty token) (λ _. refl)
        λ _. rw shut refl
