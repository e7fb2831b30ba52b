-- ===== src/Core/Sessions/Badges.antt =====
-- The DONE badges of internal/core/store.go: whose they are, and what makes one.
use herdr_expose.Core.Scope.{filter_snapshot}
use herdr_expose.Core.Target.{join_target, target_sep}
use herdr_expose.Prelude.Map.{keys, lookup-delete, lookup-insert, delete, Map, insert, lookup}
use herdr_expose.Prelude.Lists.{is_empty, length-append, length}
use herdr_expose.Upstream.Model.{Snapshot, Pane}
use herdr_expose.Core.Sessions.{
  Store, is_gone, SessionState, forget_session, has_session, applied, apply_snapshot, observe_all,
  is_settled, prefix, or_empty, forget_keys, forget_key, changed, observe, Writer,
}
use herdr_expose.Prelude.{
  ℕ, ◌+◌, ◌≡◌, refl, sym, ap, ◌∙◌, ◌≢◌, inl, inr, Bool, true, false, not, ◌&&◌, some, List, [], ◌∷◌,
  ◌++◌, arith,
}
use herdr_expose.Prelude.Tests.{or_zero, if_split, ltb, if◌then◌else◌, Bool-cases, Option-cases}
use herdr_expose.Prelude.Text.{has_prefix, text_eq_ne, text_eq, Text}

-- Nothing that is kept under a key has changed.
pub record Untouched (key : Text) (m m' : Writer) : Type 0 where
  pub done : lookup key m'.done_seq ≡ lookup key m.done_seq
  pub state : lookup key m'.last_state ≡ lookup key m.last_state
  pub since : lookup key m'.changed_at ≡ lookup key m.changed_at

untouched : (key : Text) (m : Writer) → Untouched key m m
untouched key m = record { done = refl; state = refl; since = refl }

then-Untouched :
    (key : Text) (a b c : Writer) → Untouched key a b → Untouched key b c → Untouched key a c
then-Untouched key a b c p q = record {
  done = q.done ∙ p.done;
  state = q.state ∙ p.state;
  since = q.since ∙ p.since;
}

insert_other {ℓ} :
    {V : Type ℓ} (k key : Text) (v : V) (m : Map V)
    → text_eq k key ≡ false
    → lookup key (insert k v m) ≡ lookup key m
insert_other k key v m h = rw (lookup-insert k key v m, h) refl

delete_other {ℓ} :
    {V : Type ℓ} (k key : Text) (m : Map V)
    → text_eq k key ≡ false
    → lookup key (delete k m) ≡ lookup key m
delete_other k key m h = rw (lookup-delete k key m, h) refl

forget_key-other :
    (m : Writer) (k key : Text) → text_eq k key ≡ false → Untouched key m (forget_key m k)
unfolding forget_key
forget_key-other m k key h = record {
  done = delete_other k key m.done_seq h;
  state = delete_other k key m.last_state h;
  since = delete_other k key m.changed_at h;
}

forget_keys-other :
    (picks : Text → Bool) (ks : List Text) (m : Writer) (key : Text)
    → picks key ≡ false
    → Untouched key m (forget_keys picks ks m)
unfolding forget_keys
forget_keys-other picks [] m key h = untouched key m
forget_keys-other picks (k ∷ ks) m key h = elim (Bool-cases (picks k)) [
  | inl e ↦
      let other : text_eq k key ≡ false = text_eq_ne k key (λ same. cc (e, h, ap picks same)) in
      then-Untouched key m (if picks k then forget_key m k else m) _
        (if_split (Untouched key m) (picks k) (λ _. forget_key-other m k key other)
          λ _. untouched key m)
        (forget_keys-other picks ks (if picks k then forget_key m k else m) key h)
  | inr e ↦
      then-Untouched key m (if picks k then forget_key m k else m) _
        (if_split (Untouched key m) (picks k) (λ t. absurd (cc (e, t))) λ _. untouched key m)
        (forget_keys-other picks ks (if picks k then forget_key m k else m) key h)
]

changed-other :
    (m : Writer) (now : ℕ) (k key prev status : Text)
    → text_eq k key ≡ false
    → Untouched key m (changed m now k prev status)
unfolding changed
changed-other m now k key prev status h = record {
  done =
      if_split (λ (x : Map ℕ). lookup key x ≡ lookup key m.done_seq)
        (is_settled status && not (is_empty prev))
        (λ _. insert_other k key (or_zero (lookup k m.done_seq) + 1) m.done_seq h) λ _. refl;
  state = insert_other k key status m.last_state h;
  since =
      if_split (λ (x : Map ℕ). lookup key x ≡ lookup key m.changed_at) (is_empty prev) (λ _. refl)
        λ _. insert_other k key now m.changed_at h;
}

cleared-other :
    (m : Writer) (k key : Text)
    → text_eq k key ≡ false
    → Untouched key m (record m { done_seq = insert k 0 m.done_seq })
cleared-other m k key h = record {
  done = insert_other k key 0 m.done_seq h;
  state = refl;
  since = refl;
}

observe-other :
    (m : Writer) (now : ℕ) (k key : Text) (p : Pane)
    → text_eq k key ≡ false
    → Untouched key m (observe m now k p)
unfolding observe
observe-other m now k key p h =
    let prev = or_empty (lookup k m.last_state) in
    let m' = if text_eq prev p.agent_status then m else changed m now k prev p.agent_status in
    let first : Untouched key m m' =
      if_split (Untouched key m) (text_eq prev p.agent_status) (λ _. untouched key m)
        (λ _. changed-other m now k key prev p.agent_status h) in
    if_split (Untouched key m) p.focused
      (λ _. then-Untouched key m m' _ first (cleared-other m' k key h)) (λ _. first)

prefix-longer :
    (s id : Text) → id ≢ [] → ltb (length (prefix s)) (length (s ++ (target_sep ∷ id))) ≡ true
prefix-longer s [] h = absurd (h refl)
prefix-longer s (x ∷ id) h =
    ground (arith, length-append s (target_sep ∷ []), length-append s (target_sep ∷ x ∷ id))

prefix-has : (s id : Text) → has_prefix (s ++ (target_sep ∷ id)) (prefix s) ≡ true
unfolding has_prefix
prefix-has [] id = refl
prefix-has (x ∷ s) id = ground (arith, prefix-has s id)

-- The key of one of the session's panes is never a key of another session.
join_target-other :
    (session id key : Text)
    → session ≢ []
    → key ≢ []
    → has_session session key ≡ false
    → text_eq (join_target session id) key ≡ false
unfolding join_target has_session
join_target-other [] id key s k h = absurd (s refl)
join_target-other (x ∷ s) [] key n k h = text_eq_ne [] key (λ e. k (sym e))
join_target-other (x ∷ s) (y ∷ id) key n k h =
    text_eq_ne ((x ∷ s) ++ (target_sep ∷ y ∷ id)) key λ e.
      let a : has_session (x ∷ s) ((x ∷ s) ++ (target_sep ∷ y ∷ id)) ≡ true =
        rw (has_session, prefix-longer (x ∷ s) (y ∷ id) (λ q. cc), prefix-has (x ∷ s) (y ∷ id))
          refl in
      cc (h, a, ap (has_session (x ∷ s)) e)

observe_all-other :
    (m : Writer) (now : ℕ) (session : Text) (ps : List Pane) (key : Text)
    → session ≢ []
    → key ≢ []
    → has_session session key ≡ false
    → Untouched key m (observe_all m now session ps)
unfolding observe_all
observe_all-other m now session [] key s k h = untouched key m
observe_all-other m now session (p ∷ ps) key s k h =
    let id = join_target session p.pane_id in
    then-Untouched key m (observe m now id p) (observe_all (observe m now id p) now session ps)
      (observe-other m now id key p (join_target-other session p.pane_id key s k h))
      (observe_all-other (observe m now id p) now session ps key s k h)

-- A key that does not belong to the session keeps its badge counter, its last status and its time of
-- change through the snapshot of that session, and through its end.
pub other_session-Untouched :
    (s : Store) (m : Writer) (now : ℕ) (session key : Text) (snap : Snapshot)
    → session ≢ []
    → key ≢ []
    → has_session session key ≡ false
    → Untouched key m (apply_snapshot s m now session snap)
      × Untouched key m (forget_session m session)
unfolding apply_snapshot applied forget_session
other_session-Untouched s m now session key snap n k h = (
  elim (Option-cases (lookup session m.sessions)) [
    | inl e ↦ rw (e, apply_snapshot) (untouched key m)
    | inr (st, e) ↦ rw (e, apply_snapshot) (applied_untouched st (filter_snapshot s.scope snap))
  ],
  forget_keys-other (has_session session) (keys m.done_seq) m key h,
)
  where
    applied_untouched :
        (st : SessionState) (sn : Snapshot) → Untouched key m (applied m now session st sn)
    applied_untouched st sn =
        let m1 = record m {
          sessions = insert session (record st { snapshot = some sn }) m.sessions;
        } in
        let m2 = observe_all m1 now session sn.panes in
        let o : Untouched key m1 m2 = observe_all-other m1 now session sn.panes key n k h in
        let gone : is_gone session sn.panes key ≡ false = unfold is_gone in rw h refl in
        let f = forget_keys-other (is_gone session sn.panes) (keys m2.done_seq) m2 key gone in
        record { done = f.done ∙ o.done; state = f.state ∙ o.state; since = f.since ∙ o.since }
