-- ===== src/Core/Hub/Entries.antt =====
-- internal/core/shared.go: what the hub counts of a connection, and what the connection has itself.
use herdr_expose.Prelude.{
  ℕ, ◌≡◌, refl, sym, ap, subst, ◌∙◌, ◌⊎◌, inl, inr, true, false, Option, none, some, [], ◌∷◌,
}
use herdr_expose.Prelude.Tests.{if_split, ◌==◌, ==_iff, if◌then◌else◌, Bool-cases, Option-cases}
use herdr_expose.Prelude.Lists.{is_empty}
use herdr_expose.Prelude.Text.{Text, text_eq, text_eq_iff}
use herdr_expose.Prelude.Map.{
  Map, lookup, insert, delete, lookup-insert, lookup-delete, lookup-insert_self, lookup-delete_self,
}
use herdr_expose.Core.Hub.{LiveStream, SharedStream, Hub, Session, detach, leave}
use herdr_expose.Core.Hub.Fanout.{World}

-- What the hub has of a connection at a target: the serial of the shared stream and of its own.
abbrev pub paired : ℕ → Option ℕ → Option (ℕ × ℕ)
paired n none = none
paired n (some k) = some (n, k)

abbrev pub entry_in : Text → Option SharedStream → Option (ℕ × ℕ)
entry_in j none = none
entry_in j (some ss) = paired ss.serial (lookup j ss.subs)

abbrev pub entry : Text → Text → Map SharedStream → Option (ℕ × ℕ)
entry j t shared = entry_in j (lookup t shared)

-- What the connection has itself.
abbrev pub share_of : ℕ → Option ℕ → Option (ℕ × ℕ)
share_of k none = none
share_of k (some n) = some (n, k)

abbrev pub held_in : Option LiveStream → Option (ℕ × ℕ)
held_in none = none
held_in (some ls) = share_of ls.serial ls.shared

abbrev pub held : Text → Session → Option (ℕ × ℕ)
held t c = held_in (lookup t c.streams)

-- Every connection that a shared stream counts watches it, and every one that watches it is counted.
abbrev pub Linked : World → Type 0
Linked w = (j t : Text) → entry j t w.hub.shared ≡ held t (w.sessions j)

empty_lookup : {V : Type 0} (j : Text) (m : Map V) → is_empty m ≡ true → lookup j m ≡ none
unfolding lookup
empty_lookup j [] h = refl
empty_lookup j (x ∷ m) h = absurd (cc (h))

detach-none :
    (i u : Text) (n : ℕ) (sh : Map SharedStream) → lookup u sh ≡ none → detach i u n sh ≡ sh
unfolding detach
detach-none i u n sh e = rw (detach, e) refl

abbrev pub unsubscribed : Text → Text → SharedStream → Map SharedStream → Map SharedStream
unsubscribed i u ss sh =
    if is_empty (delete i ss.subs)
    then delete u sh
    else insert u (record ss { subs = delete i ss.subs }) sh

detach-some :
    (i u : Text) (n : ℕ) (sh : Map SharedStream) (ss : SharedStream)
    → lookup u sh ≡ some ss
    → detach i u n sh ≡ (if ss.serial == n then unsubscribed i u ss sh else sh)
unfolding detach
detach-some i u n sh ss e = rw (detach, e) refl

-- What holds of the map without a change, and of the map without the subscriber, holds after a detach.
pub detach_split :
    (P : Map SharedStream → Type 0) (i u : Text) (n : ℕ) (sh : Map SharedStream)
    → ((lookup u sh ≡ none) → P sh)
    → ((ss : SharedStream)
        → lookup u sh ≡ some ss
        → (ss.serial == n) ≡ true
        → P (unsubscribed i u ss sh))
    → ((ss : SharedStream) → lookup u sh ≡ some ss → (ss.serial == n) ≡ false → P sh)
    → P (detach i u n sh)
detach_split P i u n sh a b c = elim (Option-cases (lookup u sh)) [
  | inl e ↦ subst P (sym (detach-none i u n sh e)) (a e)
  | inr (ss, e) ↦
      subst P (sym (detach-some i u n sh ss e)) (if_split P (ss.serial == n) (b ss e) (c ss e))
]

detach-other_target :
    (i u j t : Text) (n : ℕ) (sh : Map SharedStream)
    → text_eq u t ≡ false
    → entry j t (detach i u n sh) ≡ entry j t sh
detach-other_target i u j t n sh ne =
    let P = λ (x : Map SharedStream). entry j t x ≡ entry j t sh in
    detach_split P i u n sh (λ _. refl)
      (λ ss e q.
        if_split P (is_empty (delete i ss.subs))
          (λ _. ap (entry_in j) (rw (lookup-delete u t sh, ne) refl))
          λ _.
            ap (entry_in j)
              (rw (lookup-insert u t (record ss { subs = delete i ss.subs }) sh, ne) refl))
      (λ ss e q. refl)

detach-other_session :
    (i u j : Text) (n : ℕ) (sh : Map SharedStream)
    → text_eq i j ≡ false
    → entry j u (detach i u n sh) ≡ entry j u sh
detach-other_session i u j n sh ne =
    let P = λ (x : Map SharedStream). entry j u x ≡ entry j u sh in
    detach_split P i u n sh (λ _. refl)
      (λ ss e q.
        let same : lookup j (delete i ss.subs) ≡ lookup j ss.subs =
          rw (lookup-delete i j ss.subs, ne) refl in
        let before : entry j u sh ≡ paired ss.serial (lookup j ss.subs) = ap (entry_in j) e in
        if_split P (is_empty (delete i ss.subs))
          (λ b.
            ap (entry_in j) (lookup-delete_self u sh)
            ∙ (ap (paired ss.serial) (sym (empty_lookup j (delete i ss.subs) b) ∙ same)
                ∙ sym before))
          λ _.
            ap (entry_in j) (lookup-insert_self u (record ss { subs = delete i ss.subs }) sh)
            ∙ (ap (paired ss.serial) same ∙ sym before))
      (λ ss e q. refl)

paired_serial : (m n k : ℕ) (o : Option ℕ) → paired m o ≡ some (n, k) → m ≡ n
paired_serial m n k none h = absurd (cc (h))
paired_serial m n k (some x) h = let e : (m, x) ≡ (n, k) = cc (h) in ap (λ (y : ℕ × ℕ). y.0) e

-- Leaving the stream that one is counted in.
detach_self :
    (i u : Text) (n k : ℕ) (sh : Map SharedStream)
    → (entry i u sh ≡ none) ⊎ (entry i u sh ≡ some (n, k))
    → entry i u (detach i u n sh) ≡ none
detach_self i u n k sh h =
    let P = λ (x : Map SharedStream). entry i u x ≡ none in
    detach_split P i u n sh (λ e. ap (entry_in i) e)
      (λ ss e q.
        if_split P (is_empty (delete i ss.subs)) (λ _. ap (entry_in i) (lookup-delete_self u sh))
          λ _.
            ap (entry_in i) (lookup-insert_self u (record ss { subs = delete i ss.subs }) sh)
            ∙ ap (paired ss.serial) (lookup-delete_self i ss.subs))
      (λ ss e q. elim h [
        | inl a ↦ a
        | inr b ↦
            let m : ss.serial ≡ n =
              paired_serial ss.serial n k (lookup i ss.subs) (sym (ap (entry_in i) e) ∙ b) in
            absurd (cc (q, (==_iff ss.serial n).1 m))
      ])

-- An operation of connection `i` leaves the entries of the others, and its own agree with its streams.
abbrev pub Local : Text → Map SharedStream → Hub × Session → Type 0
Local i shared x =
    ((j t : Text) → text_eq i j ≡ false → entry j t x.0.shared ≡ entry j t shared)
    × ((t : Text) → entry i t x.0.shared ≡ held t x.1)

abbrev pub Mine : Text → Hub × Session → Type 0
Mine i x = (t : Text) → entry i t x.0.shared ≡ held t x.1

-- A statement for the target of an operation and for every other one.
pub by_target : (P : Text → Type 0) (u t : Text) → P u → (text_eq u t ≡ false → P t) → P t
by_target P u t a b = elim (Bool-cases (text_eq u t)) [
  | inl e ↦ subst P ((text_eq_iff u t).0 e) a
  | inr e ↦ b e
]

pub leave-others :
    (i u j t : Text) (ls : LiveStream) (h : Hub)
    → text_eq i j ≡ false
    → entry j t (leave i u ls h).shared ≡ entry j t h.shared
leave-others i u j t ls h ne = elim (Option-cases ls.shared) [
  | inl e ↦ rw (leave, e) refl
  | inr (n, e) ↦
      rw (leave, e)
        (by_target (λ x. entry j x (detach i u n h.shared) ≡ entry j x h.shared) u t
          (detach-other_session i u j n h.shared ne)
          (λ d. detach-other_target i u j t n h.shared d))
]

pub leave-elsewhere :
    (i u t : Text) (ls : LiveStream) (h : Hub)
    → text_eq u t ≡ false
    → entry i t (leave i u ls h).shared ≡ entry i t h.shared
leave-elsewhere i u t ls h ne = elim (Option-cases ls.shared) [
  | inl e ↦ rw (leave, e) refl
  | inr (n, e) ↦ rw (leave, e) (detach-other_target i u i t n h.shared ne)
]

pub leave-here :
    (i u : Text) (ls : LiveStream) (h : Hub)
    → (entry i u h.shared ≡ none) ⊎ (entry i u h.shared ≡ share_of ls.serial ls.shared)
    → entry i u (leave i u ls h).shared ≡ none
leave-here i u ls h m = elim (Option-cases ls.shared) [
  | inl e ↦ rw (leave, e) (elim m [ inl a ↦ a | inr b ↦ rw e at b ])
  | inr (n, e) ↦
      rw (leave, e)
        (detach_self i u n ls.serial h.shared (elim m [ inl a ↦ inl a | inr b ↦ inr (rw e at b) ]))
]
