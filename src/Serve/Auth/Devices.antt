-- ===== src/Serve/Auth/Devices.antt =====
-- The devices of internal/serve/auth.go: how many are kept, which, and whom a token admits.
use herdr_expose.Prelude.Lists.{All, In, is_empty, length, take, length-take}
use herdr_expose.Prelude.Text.{Text, text_eq, text_eq_iff}
use herdr_expose.Prelude.{
  ℕ, zero, suc, ◌≤◌, ◌≡◌, refl, subst, ◌⊎◌, inl, inr, Bool, false, not, ◌&&◌, ◌||◌, Option, none,
  some, List, [], ◌∷◌, arith,
}
use herdr_expose.Prelude.Tests.{if_split, ltb, leb, Bool-cases, Option-cases}
use herdr_expose.Serve.Auth.{
  Auth, AuthState, DeviceRecord, evict, sort_recent, insert_recent, seen_at, max_devices, past,
}
use herdr_expose.Serve.Auth.Access.{Who, server, device, authenticate, admit, find_device, idle}

-- The last seen first.
abbrev pub Recent : List DeviceRecord → Type 0
Recent [] = Unit {0}
Recent (d ∷ ds) = All (λ (e : DeviceRecord). seen_at e ≤ seen_at d) ds × Recent ds

All-insert :
    (n : ℕ) (d : DeviceRecord) (es : List DeviceRecord)
    → seen_at d ≤ n
    → All (λ (e : DeviceRecord). seen_at e ≤ n) es
    → All (λ (e : DeviceRecord). seen_at e ≤ n) (insert_recent d es)
unfolding insert_recent
All-insert n d [] h k = (h, tt)
All-insert n d (e ∷ es) h (k, ks) =
    if_split (All (λ (x : DeviceRecord). seen_at x ≤ n)) (ltb (seen_at d) (seen_at e))
      (λ _. (k, All-insert n d es h ks)) λ _. (h, (k, ks))

All-weaker :
    (m n : ℕ) (es : List DeviceRecord)
    → m ≤ n
    → All (λ (e : DeviceRecord). seen_at e ≤ m) es
    → All (λ (e : DeviceRecord). seen_at e ≤ n) es
All-weaker m n [] h k = tt
All-weaker m n (e ∷ es) h (k, ks) = (omega (arith, h, k), All-weaker m n es h ks)

insert_recent-Recent :
    (d : DeviceRecord) (es : List DeviceRecord) → Recent es → Recent (insert_recent d es)
unfolding insert_recent
insert_recent-Recent d [] h = (tt, tt)
insert_recent-Recent d (e ∷ es) (h, k) =
    if_split Recent (ltb (seen_at d) (seen_at e))
      (λ t. (All-insert (seen_at e) d es (ground (arith, t)) h, insert_recent-Recent d es k))
      λ t.
        let le : seen_at e ≤ seen_at d = ground (arith, t) in
        ((le, All-weaker (seen_at e) (seen_at d) es le h), (h, k))

sort_recent-Recent : (ds : List DeviceRecord) → Recent (sort_recent ds)
unfolding sort_recent
sort_recent-Recent [] = tt
sort_recent-Recent (d ∷ ds) = insert_recent-Recent d (sort_recent ds) (sort_recent-Recent ds)

In-insert_recent :
    (x d : DeviceRecord) (es : List DeviceRecord) → In x (d ∷ es) → In x (insert_recent d es)
unfolding insert_recent
In-insert_recent x d [] h = h
In-insert_recent x d (e ∷ es) h =
    if_split (In x) (ltb (seen_at d) (seen_at e))
      (λ _. elim h [
        | inl q ↦ inr (In-insert_recent x d es (inl q))
        | inr (inl q) ↦ inl q
        | inr (inr q) ↦ inr (In-insert_recent x d es (inr q))
      ])
      λ _. h

In-sort_recent : (x : DeviceRecord) (ds : List DeviceRecord) → In x ds → In x (sort_recent ds)
unfolding sort_recent
In-sort_recent x [] h = h
In-sort_recent x (d ∷ ds) h =
    In-insert_recent x d (sort_recent ds)
      (elim h [ inl q ↦ inl q | inr q ↦ inr (In-sort_recent x ds q) ])

All-In :
    (n : ℕ) (x : DeviceRecord) (es : List DeviceRecord)
    → In x es
    → All (λ (e : DeviceRecord). seen_at e ≤ n) es
    → seen_at x ≤ n
All-In n x [] h k = elim h [ ]
All-In n x (e ∷ es) (inl q) (k, ks) = rw q k
All-In n x (e ∷ es) (inr h) (k, ks) = All-In n x es h ks

-- Of a list in order, an element that the first n do not hold was seen no later than any that they do.
take-Recent :
    (n : ℕ) (d e : DeviceRecord) (es : List DeviceRecord)
    → Recent es
    → In d (take n es)
    → In e es
    → In e (take n es) ⊎ (seen_at e ≤ seen_at d)
take-Recent zero d e es r i j = elim i [ ]
take-Recent (suc n) d e [] r i j = elim i [ ]
take-Recent (suc n) d e (x ∷ es) r i (inl q) = inl (inl q)
take-Recent (suc n) d e (x ∷ es) (k, r) (inl p) (inr j) = inr (rw p (All-In (seen_at x) e es j k))
take-Recent (suc n) d e (x ∷ es) (k, r) (inr i) (inr j) = elim (take-Recent n d e es r i j) [
  | inl q ↦ inl (inr q)
  | inr q ↦ inr q
]

evict_recent :
    (d e : DeviceRecord) (ds : List DeviceRecord)
    → In d (evict ds)
    → In e ds
    → In e (evict ds) ⊎ (seen_at e ≤ seen_at d)
unfolding evict
evict_recent d e ds i j = elim (Bool-cases (leb (length ds) max_devices)) [
  | inl t ↦ inl (rw t j)
  | inr t ↦ rw t (
      take-Recent max_devices d e (sort_recent ds) (sort_recent-Recent ds) (rw t at i)
        (In-sort_recent e ds j))
]

pub length-evict : (ds : List DeviceRecord) → length (evict ds) ≤ max_devices
unfolding evict
length-evict ds =
    if_split (λ (es : List DeviceRecord). length es ≤ 32) (leb (length ds) 32)
      (λ t. ground (arith, t)) λ t. omega (arith, length-take 32 (sort_recent ds))

-- Eviction leaves at most 32 devices, and drops none that was seen later than one that it keeps.
evict_keeps :
    (ds : List DeviceRecord)
    → (length (evict ds) ≤ max_devices)
      × ((d e : DeviceRecord)
          → In d (evict ds)
          → In e ds
          → In e (evict ds) ⊎ (seen_at e ≤ seen_at d))
evict_keeps ds = (length-evict ds, λ d e i j. evict_recent d e ds i j)

-- What a token must be for the request to be let in as `who`.
abbrev pub Admits : Text → ℕ → AuthState → Who → Type 0
Admits sum now st server = (sum ≡ st.server_token_sha) × (is_empty st.server_token_sha ≡ false)
Admits sum now st (device id name) =
    (d : DeviceRecord) × In d st.devices
    × (sum ≡ d.token_sha)
    × (past d.expires_at now ≡ false)
    × (idle d.last_seen now ≡ false)
    × (d.id ≡ id)
    × (d.name ≡ name)

abbrev Found : Text → List DeviceRecord → Option DeviceRecord → Type 0
Found sum ds none = Unit {0}
Found sum ds (some d) = In d ds × (sum ≡ d.token_sha)

find_device-Found : (sum : Text) (ds : List DeviceRecord) → Found sum ds (find_device sum ds)
unfolding find_device
find_device-Found sum [] = tt
find_device-Found sum (d ∷ ds) = elim (Option-cases (find_device sum ds)) [
  | inl e ↦
      rw (e, find_device)
        (if_split (Found sum (d ∷ ds)) (text_eq sum d.token_sha)
          (λ t. (inl refl, (text_eq_iff sum d.token_sha).0 t)) λ _. tt)
  | inr (c, e) ↦
      let (i, q) : Found sum ds (some c) = rw e at (find_device-Found sum ds) in
      rw (e, find_device) (inr i, q)
]

-- What is answered to a request that the deadline does not refuse.
abbrev Answer : Text → ℕ → AuthState → Option Who → Type 0
Answer sum now st none = Unit {0}
Answer sum now st (some who) = Admits sum now st who

admit-Answer :
    (written : Bool) (now : ℕ) (ip agent sum : Text) (o : Option DeviceRecord) (a : Auth)
    → Found sum a.state.devices o
    → Answer sum now a.state (admit written now ip agent sum o a).1
unfolding admit
admit-Answer written now ip agent sum none a h = tt
admit-Answer written now ip agent sum (some d) a (i, q) =
    if_split (λ (x : Auth × Option Who). Answer sum now a.state x.1)
      (past d.expires_at now || idle d.last_seen now) (λ _. tt)
      λ t. (d, i, q, ground (arith, t), ground (arith, t), refl, refl)

authenticate-Answer :
    (hash : Text → Text) (written : Bool) (now : ℕ) (token ip agent : Text) (a : Auth)
    → Answer (hash token) now a.state (authenticate hash written now token ip agent a).1
unfolding authenticate
authenticate-Answer hash written now token ip agent a =
    let P = λ (x : Auth × Option Who). Answer (hash token) now a.state x.1 in
    if_split P (is_empty token) (λ _. tt)
      λ _.
        if_split P (past a.deadline now) (λ _. tt)
          λ _.
            if_split P
              (not (is_empty a.state.server_token_sha)
                && text_eq (hash token) a.state.server_token_sha)
              (λ t. (
                ground (arith, t, text_eq_iff (hash token) a.state.server_token_sha),
                ground (arith, t),
              ))
              λ _.
                admit-Answer written now ip agent (hash token)
                  (find_device (hash token) a.state.devices) a
                  (find_device-Found (hash token) a.state.devices)

-- A request is let in only with a token whose hash is that of the server's own token, or of a listed
-- device that is neither expired nor idle; and the answer names that device.
pub authenticate-Admits :
    (hash : Text → Text) (written : Bool) (now : ℕ) (token ip agent : Text) (a : Auth) {who : Who}
    → (authenticate hash written now token ip agent a).1 ≡ some who
    → Admits (hash token) now a.state who
authenticate-Admits hash written now token ip agent a {who} e =
    subst (Answer (hash token) now a.state) e
      (authenticate-Answer hash written now token ip agent a)
