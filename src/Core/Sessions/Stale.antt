-- ===== src/Core/Sessions/Stale.antt =====
-- A status that outlives its session in internal/core/store.go: `forgetSession` and `applySnapshot` go
-- over the keys of `doneSeq` only.
use herdr_expose.Prelude.Lists.{is_empty}
use herdr_expose.Upstream.Model.{Pane}
use herdr_expose.Prelude.Map.{lookup-insert_self, lookup-delete, keys, Map, lookup}
use herdr_expose.Core.Sessions.{
  has_session, is_settled, forget_key, changed, Writer, forget_session, forget_keys, observe,
}
use herdr_expose.Prelude.{ℕ, ◌≡◌, refl, ◌∙◌, inl, inr, Bool, true, false, none, some, List, [], ◌∷◌}
use herdr_expose.Prelude.Tests.{if_split, if◌then◌else◌, Bool-cases}
use herdr_expose.Prelude.Text.{text_eq, Text}

-- No key of the list is this one.
Misses : Text → List Text → Type 0
Misses key [] = Unit {0}
Misses key (k ∷ ks) = (text_eq k key ≡ false) × Misses key ks

keys-Misses {ℓ} : {V : Type ℓ} (key : Text) (m : Map V) → lookup key m ≡ none → Misses key (keys m)
unfolding Misses lookup
keys-Misses key [] h = tt
keys-Misses key ((k, v) ∷ m) h = elim (Bool-cases (text_eq k key)) [
  | inl e ↦ absurd (cc (rw e at h))
  | inr e ↦ (e, keys-Misses key m (rw e at h))
]

forget_keys-absent :
    (picks : Text → Bool) (ks : List Text) (m : Writer) (key : Text)
    → Misses key ks
    → (lookup key (forget_keys picks ks m).last_state ≡ lookup key m.last_state)
      × (lookup key m.done_seq ≡ none → lookup key (forget_keys picks ks m).done_seq ≡ none)
unfolding forget_keys Misses forget_key
forget_keys-absent picks [] m key h = (refl, λ e. e)
forget_keys-absent picks (k ∷ ks) m key h =
    let next : Writer = if picks k then forget_key m k else m in
    let rest = forget_keys-absent picks ks next key h.1 in
    let state : lookup key next.last_state ≡ lookup key m.last_state =
      if_split (λ (x : Writer). lookup key x.last_state ≡ lookup key m.last_state) (picks k)
        (λ _. rw (lookup-delete k key m.last_state, h.0) refl) λ _. refl in
    let done : lookup key next.done_seq ≡ lookup key m.done_seq =
      if_split (λ (x : Writer). lookup key x.done_seq ≡ lookup key m.done_seq) (picks k)
        (λ _. rw (lookup-delete k key m.done_seq, h.0) refl) λ _. refl in
    (rest.0 ∙ state, λ e. rest.1 (done ∙ e))

observe_settled :
    (m : Writer) (now : ℕ) (key prev : Text) (p : Pane)
    → lookup key m.last_state ≡ some prev
    → lookup key m.done_seq ≡ none
    → is_empty prev ≡ false
    → text_eq prev p.agent_status ≡ false
    → is_settled p.agent_status ≡ true
    → p.focused ≡ false
    → lookup key (observe m now key p).done_seq ≡ some 1
unfolding observe changed
observe_settled m now key prev p e d n c st f =
    rw (e, observe) (simp (c, f, st, n, d) (lookup-insert_self key 1 m.done_seq))

-- The end of a session does not forget the last status of a pane that never had a badge counter. When
-- the session comes back and mints the same pane id, in a settled status on first sight, that pane
-- gets a DONE badge for a change nobody watched.
pub forgotten_session_makes_badge :
    (m : Writer) (now : ℕ) (session key prev : Text) (p : Pane)
    → lookup key m.last_state ≡ some prev
    → lookup key m.done_seq ≡ none
    → is_empty prev ≡ false
    → text_eq prev p.agent_status ≡ false
    → is_settled p.agent_status ≡ true
    → p.focused ≡ false
    → lookup key (observe (forget_session m session) now key p).done_seq ≡ some 1
unfolding forget_session
forgotten_session_makes_badge m now session key prev p e d n c st f =
    let (state, done) =
      forget_keys-absent (has_session session) (keys m.done_seq) m key
        (keys-Misses key m.done_seq d) in
    observe_settled (forget_session m session) now key prev p (state ∙ e) (done d) n c st f
