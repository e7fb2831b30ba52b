-- ===== src/Core/Sessions/Pinned.antt =====
-- A pinned store of internal/core/store.go attaches to the one session of its scope only.
use herdr_expose.Prelude.Map.{lookup-insert, lookup-delete, keys, insert, lookup, delete, Map}
use herdr_expose.Core.Scope.{allows_session, Scope}
use herdr_expose.Core.Sessions.Reconcile.{
  new_session, described, stop_worker, detached, listed, list_all, reconcile, ensure_worker,
  attached, drop_vanished,
}
use herdr_expose.Core.Sessions.Publish.{
  content, build_tree, is_last, store_tree, publish, publish_tree,
}
use herdr_expose.Core.Sessions.{
  Store, has_session, Tree, SessionState, forget_key, Writer, Info, forget_keys, forget_session,
}
use herdr_expose.Prelude.{
  ℕ, ◌≡◌, refl, sym, ap, ◌∙◌, inl, inr, Bool, true, false, Option, none, some, List, [], ◌∷◌,
}
use herdr_expose.Prelude.Tests.{if_split, is_some, if◌then◌else◌, Bool-cases, Option-cases}
use herdr_expose.Prelude.Text.{text_eq_iff, member, text_eq, Text}

-- Every key of a map is a session that the scope allows.
unfoldable pub Allowed {ℓ} : {V : Type ℓ} → Option Scope → Map V → Type 0
Allowed sc m = (name : Text) → is_some (lookup name m) ≡ true → allows_session sc name ≡ true

insert-Allowed {ℓ} :
    {V : Type ℓ} (sc : Option Scope) (k : Text) (v : V) (m : Map V)
    → allows_session sc k ≡ true
    → Allowed sc m
    → Allowed sc (insert k v m)
unfolding Allowed
insert-Allowed sc k v m a h name e = elim (Bool-cases (text_eq k name)) [
  | inl t ↦ ap (allows_session sc) (sym ((text_eq_iff k name).0 t)) ∙ a
  | inr t ↦ h name (rw (lookup-insert k name v m, t) at e)
]

delete-Allowed {ℓ} :
    {V : Type ℓ} (sc : Option Scope) (k : Text) (m : Map V) → Allowed sc m → Allowed sc (delete k m)
unfolding Allowed
delete-Allowed sc k m h name e = elim (Bool-cases (text_eq k name)) [
  | inl t ↦ absurd (cc (rw (lookup-delete k name m, t) at e))
  | inr t ↦ h name (rw (lookup-delete k name m, t) at e)
]

-- The store and the writer know no session but what the scope allows.
abbrev pub IsPinned : Store × Writer → Type 0
IsPinned (s, m) = Allowed s.scope s.workers × Allowed s.scope m.sessions

forget_keys-sessions :
    (picks : Text → Bool) (ks : List Text) (m : Writer)
    → (forget_keys picks ks m).sessions ≡ m.sessions
unfolding forget_keys forget_key
forget_keys-sessions picks [] m = refl
forget_keys-sessions picks (k ∷ ks) m =
    forget_keys-sessions picks ks (if picks k then forget_key m k else m)
    ∙ if_split (λ (x : Writer). x.sessions ≡ m.sessions) (picks k) (λ _. refl) λ _. refl

forget_session-sessions : (m : Writer) (name : Text) → (forget_session m name).sessions ≡ m.sessions
unfolding forget_session
forget_session-sessions m name = forget_keys-sessions (has_session name) (keys m.done_seq) m

ensure_worker-IsPinned :
    (s : Store) (m : Writer) (info : Info)
    → allows_session s.scope info.name ≡ true
    → IsPinned (s, m)
    → IsPinned (ensure_worker s info, m)
unfolding ensure_worker
ensure_worker-IsPinned s m info a h =
    let added = insert-Allowed s.scope info.name info.socket_path s.workers a h.0 in
    elim (Option-cases (lookup info.name s.workers)) [
      | inl e ↦ rw (e, ensure_worker) (added, h.1)
      | inr (path, e) ↦
          rw (e, ensure_worker)
            (if_split (λ (x : Store). IsPinned (x, m)) (text_eq path info.socket_path) (λ _. h)
              λ _. (added, h.1))
    ]

detached-IsPinned :
    (s : Store) (b : Bool) (m : Writer) (name : Text) (st : SessionState)
    → allows_session s.scope name ≡ true
    → IsPinned (s, m)
    → IsPinned (detached (s, b) m name st)
unfolding detached
detached-IsPinned s true m name st a h =
    (h.0, rw (forget_session-sessions _ name) (insert-Allowed s.scope name _ m.sessions a h.1))
detached-IsPinned s false m name st a h = (h.0, insert-Allowed s.scope name st m.sessions a h.1)

attached-IsPinned :
    (s : Store) (m : Writer) (info : Info) (st : SessionState)
    → allows_session s.scope info.name ≡ true
    → IsPinned (s, m)
    → IsPinned (attached s m info st)
unfolding attached stop_worker
attached-IsPinned s m info st a h =
    if_split IsPinned info.running
      (λ _.
        ensure_worker-IsPinned s
          (record m { sessions = insert info.name (described s info st) m.sessions }) info a
          (h.0, insert-Allowed s.scope info.name (described s info st) m.sessions a h.1))
      λ _.
        detached-IsPinned (stop_worker s info.name).0 (stop_worker s info.name).1 m info.name
          (described s info st) a (delete-Allowed s.scope info.name s.workers h.0, h.1)

listed-IsPinned :
    (s : Store) (m : Writer) (info : Info)
    → allows_session s.scope info.name ≡ true
    → IsPinned (s, m)
    → IsPinned (listed s m info)
unfolding listed
listed-IsPinned s m info a h = elim (Option-cases (lookup info.name m.sessions)) [
  | inl e ↦
      rw (e, listed)
        (if_split IsPinned info.running
          (λ _. attached-IsPinned s m info (new_session info.name) a h) λ _. h)
  | inr (st, e) ↦ rw (e, listed) (attached-IsPinned s m info st a h)
]

list_all-IsPinned :
    (infos : List Info) (x : Store × Writer) (seen : List Text)
    → IsPinned x
    → IsPinned (list_all infos x seen).0
unfolding list_all
list_all-IsPinned [] x seen h = h
list_all-IsPinned (info ∷ infos) (s, m) seen h = list_all-IsPinned infos _ _ (
    if_split IsPinned (allows_session s.scope info.name) (λ a. listed-IsPinned s m info a h) λ _. h)

drop_vanished-IsPinned :
    (names seen : List Text) (x : Store × Writer)
    → IsPinned x
    → IsPinned (drop_vanished names seen x)
unfolding drop_vanished stop_worker
drop_vanished-IsPinned [] seen x h = h
drop_vanished-IsPinned (name ∷ names) seen (s, m) h = drop_vanished-IsPinned names seen _ (
    if_split IsPinned (member name seen) (λ _. h)
      λ _. (
        delete-Allowed s.scope name s.workers h.0,
        rw (forget_session-sessions _ name) (delete-Allowed s.scope name m.sessions h.1),
      ))

publish_tree-IsPinned :
    (s : Store) (m : Writer) (t : Tree) (o : Option ℕ)
    → IsPinned (s, m)
    → IsPinned (publish_tree s t o, m)
unfolding publish_tree store_tree
publish_tree-IsPinned s m t none h = h
publish_tree-IsPinned s m t (some id) h =
    if_split (λ (x : Store). IsPinned (x, m)) (is_last s.last_id id) (λ _. h) λ _. h

-- Whatever a discovery listing names, a pinned store keeps no worker and no entry for a session that
-- its scope does not allow: none of them is ever attached to.
pub reconcile-IsPinned :
    (identity : Tree → Option ℕ) (s : Store) (m : Writer) (now : ℕ) (infos : List Info)
    → IsPinned (s, m)
    → IsPinned (reconcile identity s m now infos)
unfolding reconcile publish
reconcile-IsPinned identity s m now infos h =
    let first = list_all-IsPinned infos (s, m) [] h in
    let (x, seen) = list_all infos (s, m) [] in
    let (s', m') = drop_vanished (keys x.1.sessions) seen x in
    publish_tree-IsPinned s' m' (build_tree m' now) (identity (content (build_tree m' now)))
      (drop_vanished-IsPinned (keys x.1.sessions) seen x first)
