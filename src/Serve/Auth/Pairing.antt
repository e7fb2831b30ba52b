-- ===== src/Serve/Auth/Pairing.antt =====
-- A pairing code of internal/serve/auth.go is good for one device.
use herdr_expose.Serve.RateLimiter.{RateLimiter, allow}
use herdr_expose.Prelude.Lists.{count_if}
use herdr_expose.Serve.Auth.Access.{minted, pair_key, forgiven, redeem, exchange, enroll}
use herdr_expose.Serve.Auth.{
  first_of, merged, AuthState, reload, DeviceRecord, save, upper, Auth, PairingRecord, take_last,
  gc_pairing,
}
use herdr_expose.Prelude.{
  ℕ, ◌+◌, ◌≤◌, ◌≡◌, refl, ap, subst, ◌∙◌, inl, inr, Bool, true, false, Option, none, some, List, [],
  ◌∷◌, map, arith,
}
use herdr_expose.Prelude.Tests.{if_split, ltb, Bool-cases, Option-cases}
use herdr_expose.Prelude.Text.{text_eq, trim_space, Text}

-- How many records there are of the code's hash.
abbrev pub count_sha : Text → List PairingRecord → ℕ
count_sha sum ps = count_if (λ (p : PairingRecord). text_eq sum p.sha) ps

-- What a redemption found of the code, it left one less of on disk.
abbrev Consumed : Text → ℕ → Auth × Option DeviceRecord → Type 0
Consumed sum n (a, none) = Unit {0}
Consumed sum n (a, some d) =
    (st : AuthState) × (a.disk ≡ some st) × (count_sha sum st.pairing + 1 ≤ n)

abbrev Taken : Text → List PairingRecord → Option (PairingRecord × List PairingRecord) → Type 0
Taken sum ps none = count_sha sum ps ≡ 0
Taken sum ps (some (hit, rest)) = count_sha sum rest + 1 ≡ count_sha sum ps

take_last-Taken : (sum : Text) (ps : List PairingRecord) → Taken sum ps (take_last sum ps)
unfolding take_last
take_last-Taken sum [] = refl
take_last-Taken sum (p ∷ ps) = elim (Option-cases (take_last sum ps)) [
  | inl e ↦
      let none_later : count_sha sum ps ≡ 0 = rw e at (take_last-Taken sum ps) in
      rw (e, take_last)
        (elim (Bool-cases (text_eq sum p.sha)) [
          | inl t ↦ rw t (ground (arith, none_later))
          | inr t ↦ rw t (ground (arith, none_later))
        ])
  | inr ((hit, rest), e) ↦
      let later : count_sha sum rest + 1 ≡ count_sha sum ps = rw e at (take_last-Taken sum ps) in
      rw (e, take_last) (omega (arith, later))
]

count_sha-gc_pairing :
    (sum : Text) (now : ℕ) (ps : List PairingRecord)
    → count_sha sum (gc_pairing now ps) ≤ count_sha sum ps
unfolding gc_pairing
count_sha-gc_pairing sum now [] = omega arith
count_sha-gc_pairing sum now (p ∷ ps) = ground (arith, count_sha-gc_pairing sum now ps)

enroll-Consumed :
    (sum : Text) (n : ℕ) (written : Bool) (d : DeviceRecord) (a : Auth)
    → count_sha sum a.state.pairing + 1 ≤ n
    → Consumed sum n (enroll written d a)
unfolding enroll save
enroll-Consumed sum n true d a h = (_, refl, h)
enroll-Consumed sum n false d a h = tt

exchange-Consumed :
    (sum : Text) (n : ℕ) (written : Bool) (later : ℕ) (mint : Text → DeviceRecord)
    (o : Option (PairingRecord × List PairingRecord)) (a : Auth)
    → Taken sum a.state.pairing o
    → count_sha sum a.state.pairing ≤ n
    → Consumed sum n (exchange written later mint o a)
unfolding exchange
exchange-Consumed sum n written later mint none a t h = tt
exchange-Consumed sum n written later mint (some (hit, rest)) a t h =
    if_split (Consumed sum n) (ltb hit.expires later) (λ _. tt)
      λ _.
        enroll-Consumed sum n written (mint hit.name)
          (record a { state = record (a.state) { pairing = rest } }) (omega (arith, t, h))

forgiven-Consumed :
    (sum key : Text) (n : ℕ) (x : Auth × Option DeviceRecord)
    → Consumed sum n x
    → Consumed sum n (forgiven key x)
forgiven-Consumed sum key n (a, none) h = tt
forgiven-Consumed sum key n (a, some d) h = h

-- The hash that a typed code is looked up by.
abbrev pub code_sha : (Text → Text) → Text → Text
code_sha hash code = hash (map upper (trim_space code))

reload-state :
    (a : Auth) (l : RateLimiter) → (reload (record a { limiter = l })).state ≡ (reload a).state
unfolding reload
reload-state a l = ground arith

redeem-Consumed :
    (hash : Text → Text) (written : Bool) (now later : ℕ) (tok id code name ip agent : Text)
    (a : Auth)
    → Consumed
        (code_sha hash code)
        (count_sha (code_sha hash code) (reload a).state.pairing)
        (redeem hash written now later tok id code name ip agent a)
unfolding redeem reload
redeem-Consumed hash written now later tok id code name ip agent a =
    let sum = code_sha hash code in
    let b = reload (record a { limiter = (allow a.limiter now (pair_key ip)).0 }) in
    let c = record b { state = record (b.state) { pairing = gc_pairing now b.state.pairing } } in
    let mint = λ (hit : Text). minted hash later a.deadline tok id (first_of name hit) ip agent in
    let same : b.state.pairing ≡ (reload a).state.pairing =
      ap (λ (st : AuthState). st.pairing) (reload-state a _) in
    if_split (Consumed sum (count_sha sum (reload a).state.pairing))
      (allow a.limiter now (pair_key ip)).1
      (λ _. forgiven-Consumed sum (pair_key ip) _ _ (
        exchange-Consumed sum (count_sha sum (reload a).state.pairing) written later mint
          (take_last sum c.state.pairing) c (take_last-Taken sum c.state.pairing)
          (subst
            (λ (ps : List PairingRecord).
              count_sha sum (gc_pairing now b.state.pairing) ≤ count_sha sum ps)
            same (count_sha-gc_pairing sum now b.state.pairing))))
      λ _. tt

take_last-none :
    (sum : Text) (ps : List PairingRecord) → count_sha sum ps ≡ 0 → take_last sum ps ≡ none
take_last-none sum ps h = elim (Option-cases (take_last sum ps)) [
  | inl e ↦ e
  | inr ((hit, rest), e) ↦
      let t : count_sha sum rest + 1 ≡ count_sha sum ps = rw e at (take_last-Taken sum ps) in
      absurd (omega (arith, t, h))
]

redeem_unknown :
    (hash : Text → Text) (written : Bool) (now later : ℕ) (tok id code name ip agent : Text)
    (a : Auth)
    → count_sha (code_sha hash code) (reload a).state.pairing ≡ 0
    → (redeem hash written now later tok id code name ip agent a).1 ≡ none
unfolding redeem exchange
redeem_unknown hash written now later tok id code name ip agent a h =
    let sum = code_sha hash code in
    let b = reload (record a { limiter = (allow a.limiter now (pair_key ip)).0 }) in
    let same : b.state ≡ (reload a).state = reload-state a _ in
    let gone : take_last sum (gc_pairing now b.state.pairing) ≡ none =
      take_last-none sum (gc_pairing now b.state.pairing) (
        omega (
          arith,
          count_sha-gc_pairing sum now b.state.pairing,
          ap (λ (st : AuthState). count_sha sum st.pairing) same,
          h,
        )) in
    if_split (λ (x : Auth × Option DeviceRecord). x.1 ≡ none) (allow a.limiter now (pair_key ip)).1
      (λ _. rw gone refl) λ _. refl

reload_disk : (b : Auth) (st : AuthState) → b.disk ≡ some st → (reload b).state.pairing ≡ st.pairing
unfolding reload merged
reload_disk b st e = ground arith

-- A pairing code is good once, in all the processes that share the file. Where the file, or a memory
-- whose file cannot be read, holds one record of the code's hash and a redemption of it succeeds,
-- every later redemption that finds the file as the first one left it fails, whatever its process
-- remembers, and whoever asks.
pub redeem_once :
    (hash : Text → Text) (written written' : Bool) (now later now' later' : ℕ)
    (tok tok' id id' code name name' ip ip' agent agent' : Text) (a b : Auth) {d : DeviceRecord}
    → count_sha (code_sha hash code) (reload a).state.pairing ≡ 1
    → (redeem hash written now later tok id code name ip agent a).1 ≡ some d
    → b.disk ≡ (redeem hash written now later tok id code name ip agent a).0.disk
    → (redeem hash written' now' later' tok' id' code name' ip' agent' b).1 ≡ none
redeem_once hash written written' now later now' later' tok tok' id id' code name name' ip ip' agent
      agent' a b {d} one e same =
    let x = redeem hash written now later tok id code name ip agent a in
    let sum = code_sha hash code in
    let (st, left, less) =
      consumed sum (count_sha sum (reload a).state.pairing) x d e
        (redeem-Consumed hash written now later tok id code name ip agent a) in
    redeem_unknown hash written' now' later' tok' id' code name' ip' agent' b
      (rw (reload_disk b st (same ∙ left)) (omega (arith, one, less)))
  where
    consumed :
        (sum : Text) (n : ℕ) (x : Auth × Option DeviceRecord) (d : DeviceRecord)
        → x.1 ≡ some d
        → Consumed sum n x
        → (st : AuthState) × (x.0.disk ≡ some st) × (count_sha sum st.pairing + 1 ≤ n)
    consumed sum n (a, none) d e h = absurd (cc (e))
    consumed sum n (a, some c) d e h = h
