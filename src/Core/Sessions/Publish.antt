-- ===== src/Core/Sessions/Publish.antt =====
-- `publish` of internal/core/store.go: the tree that every connection reads, and when it changes.
-- `treeIdentity` is the argument `identity`; it is given the tree without `rev` and `at`.
use herdr_expose.Prelude.Lists.{any_of, is_empty}
use herdr_expose.Prelude.Map.{lookup, Map}
use herdr_expose.Core.Sessions.{Store, Tree, SessionState, Writer}
use herdr_expose.Prelude.{
  ℕ, ◌+◌, ◌≡◌, refl, ◌⊎◌, inl, inr, Bool, true, false, not, ◌&&◌, ◌||◌, Option, none, some, List,
  [], ◌∷◌, arith,
}
use herdr_expose.Prelude.Tests.{◌==◌, if◌then◌else◌, Bool-cases, Option-cases}
use herdr_expose.Prelude.Text.{text_eq, text_le, Text}
use herdr_expose.Core.Coalescer.{add_uint64}

abbrev pub bool_eq : Bool → Bool → Bool
bool_eq true b = b
bool_eq false b = not b

-- The order of the sessions: connected ones first, then running ones, then by name.
unfoldable pub session_le : SessionState → SessionState → Bool
session_le a b =
    if not (bool_eq a.connected b.connected)
    then a.connected
    else if not (bool_eq a.running b.running)
    then a.running
    else text_le a.name b.name

unfoldable pub insert_session : SessionState → List SessionState → List SessionState
unfolding session_le
insert_session a [] = a ∷ []
insert_session a (b ∷ bs) =
    let rest = insert_session a bs in if session_le a b then a ∷ b ∷ bs else b ∷ rest

unfoldable pub sorted_sessions : Map SessionState → List SessionState
unfolding insert_session
sorted_sessions [] = []
sorted_sessions ((k, st) ∷ m) = insert_session st (sorted_sessions m)

unfoldable pub is_guest : Option SessionState → Bool
is_guest none = false
is_guest (some st) = not st.origin

-- The loop that picks the session to land on.
unfoldable pub focus : Map SessionState → List SessionState → Text → Text
unfolding is_guest
focus m [] focused = focused
focus m (st ∷ sts) focused = focus m sts (
    if st.connected && (is_empty focused || (st.origin && is_guest (lookup focused m)))
    then st.name
    else focused)

unfoldable pub session_named : Text → List SessionState → Option SessionState
session_named name [] = none
session_named name (st ∷ sts) = if text_eq st.name name then some st else session_named name sts

abbrev pub version_of : Option SessionState → Text
version_of none = []
version_of (some st) = st.version

abbrev pub protocol_of : Option SessionState → ℕ
protocol_of none = 0
protocol_of (some st) = st.protocol

unfoldable pub build_tree : Writer → ℕ → Tree
unfolding sorted_sessions focus session_named
build_tree m now =
    let sessions = sorted_sessions m.sessions in
    let focused = focus m.sessions sessions [] in
    let landing = session_named focused sessions in
    record {
      rev = 0;
      connected = any_of (λ (st : SessionState). st.connected) sessions;
      version = version_of landing;
      protocol = protocol_of landing;
      focused_session = focused;
      sessions = sessions;
      done_seq = m.done_seq;
      changed_at = m.changed_at;
      at = now;
    }

-- What of a tree is content: all but its revision and its time.
abbrev pub content : Tree → Tree
content t = record t { rev = 0; at = 0 }

unfoldable pub store_tree : Store → Tree → Option ℕ → Store
store_tree s t last_id =
    let rev = add_uint64 s.rev 1 in
    record s {
      rev = rev;
      cur = record t { rev = rev };
      last_id = last_id;
      notified = s.notified + 1;
    }

abbrev pub is_last : Option ℕ → ℕ → Bool
is_last none id = false
is_last (some j) id = id == j

unfoldable pub publish_tree : Store → Tree → Option ℕ → Store
unfolding store_tree
publish_tree s t none = store_tree s t s.last_id
publish_tree s t (some id) =
    if is_last s.last_id id
    then record s { suppressed = add_uint64 s.suppressed 1 }
    else store_tree s t (some id)

unfoldable pub publish : (Tree → Option ℕ) → Store → Writer → ℕ → Store
unfolding publish_tree build_tree
publish identity s m now = let t = build_tree m now in publish_tree s t (identity (content t))

-- The last hash is that of the current tree, where a tree was published.
unfoldable pub IsFresh : (Tree → Option ℕ) → Store → Type 0
IsFresh identity s = (id : ℕ) → s.last_id ≡ some id → identity (content s.cur) ≡ some id

publish_tree-cases :
    (s : Store) (t : Tree) (id : ℕ)
    → ((s.last_id ≡ some id)
        × (publish_tree s t (some id) ≡ record s { suppressed = add_uint64 s.suppressed 1 }))
      ⊎ (publish_tree s t (some id) ≡ store_tree s t (some id))
unfolding publish_tree
publish_tree-cases s t id = elim (Option-cases s.last_id) [
  | inl e ↦ inr (simp e refl)
  | inr (j, e) ↦ elim (Bool-cases (id == j)) [
    | inl h ↦ inl (ground (arith, e), simp (e, h) refl)
    | inr h ↦ inr (simp (e, h) refl)
  ]
]

-- After a publish the current tree has the hash of what the writer's state says, whether the tree
-- was replaced or not; either it was left alone, with its revision, and nobody was told, or it has the
-- content of the new tree and the next revision and everybody was told. The hash must not fail.
pub publish-IsFresh :
    (identity : Tree → Option ℕ) (s : Store) (m : Writer) (now : ℕ)
    → ((t : Tree) → (id : ℕ) × (identity t ≡ some id))
    → IsFresh identity s
    → let s' = publish identity s m now in
      (identity (content s'.cur) ≡ identity (content (build_tree m now)))
      × (IsFresh identity s'
          × (((s'.cur ≡ s.cur) × ((s'.rev ≡ s.rev) × (s'.notified ≡ s.notified)))
              ⊎ ((content s'.cur ≡ content (build_tree m now))
                  × ((s'.rev ≡ add_uint64 s.rev 1) × (s'.notified ≡ s.notified + 1)))))
unfolding publish store_tree IsFresh
publish-IsFresh identity s m now total fresh =
    let t = build_tree m now in
    let (id, e) = total (content t) in
    elim (publish_tree-cases s t id) [
      | inl (last, k) ↦ rw (e, k) (fresh id last, (fresh, inl (refl, (refl, refl))))
      | inr k ↦ rw (e, k) (e, ((λ j h. ground (arith, e)), inr (refl, (refl, refl))))
    ]
