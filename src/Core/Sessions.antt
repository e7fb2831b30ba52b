-- ===== src/Core/Sessions.antt =====
-- internal/core/store.go: the state that the writer goroutine keeps for all sessions, and the tree it
-- publishes. A worker, which is goroutines on a socket, is the path of its socket; `treeIdentity`,
-- JSON and a hash of other packages, is an argument of `publish`. Times and the badge
-- counters, `int64` in the source, are numbers here.
pub mod Badges
pub mod Publish
pub mod Reconcile
pub mod Pinned
pub mod Focus
pub mod Stale
pub mod Resolve
use herdr_expose.Core.Target.{join_target, target_sep}
use herdr_expose.Prelude.Map.{keys, lookup, insert, Map, delete}
use herdr_expose.Prelude.Lists.{is_empty, any_of, length}
use herdr_expose.Core.Scope.{Scope, filter_snapshot}
use herdr_expose.Upstream.Model.{Snapshot, Pane}
use herdr_expose.Prelude.{
  ℕ, zero, suc, ◌+◌, ◌-◌, ◌*◌, ◌/◌, ◌%◌, ◌^◌, ◌≤◌, ◌<◌, ◌≡◌, refl, sym, ap, ap₂, subst, ◌∙◌, ◌≢◌,
  ◌↔◌, ◌⊎◌, inl, inr, Bool, true, false, not, ◌&&◌, ◌||◌, Option, none, some, List, [], ◌∷◌, ◌++◌,
  map, append-nil, append_assoc, arith,
}
use herdr_expose.Prelude.Tests.{
  or_zero, ltb, leb, ◌==◌, ==_iff, if◌then◌else◌, Bool-cases, Option-cases,
}
use herdr_expose.Prelude.Text.{has_prefix, bytes, text_eq, Text}

pub record SessionState : Type 0 where
  pub name : Text
  pub socket : Text
  pub running : Bool
  pub connected : Bool
  pub origin : Bool
  pub default : Bool
  pub version : Text
  pub protocol : ℕ
  pub error : Text
  pub snapshot : Option Snapshot

-- The writer's own state, `mutable` in the source.
pub record Writer : Type 0 where
  pub sessions : Map SessionState
  pub done_seq : Map ℕ
  pub last_state : Map Text
  pub changed_at : Map ℕ

pub record Tree : Type 0 where
  pub rev : ℕ
  pub connected : Bool
  pub version : Text
  pub protocol : ℕ
  pub focused_session : Text
  pub sessions : List SessionState
  pub done_seq : Map ℕ
  pub changed_at : Map ℕ
  pub at : ℕ

-- One entry of a discovery listing.
pub record Info : Type 0 where
  pub name : Text
  pub socket_path : Text
  pub session_dir : Text
  pub running : Bool
  pub default : Bool

-- The shared part of the store; `last_id` is none until the first tree whose hash is known.
pub record Store : Type 0 where
  pub scope : Option Scope
  pub origin_name : Text
  pub origin_socket : Text
  pub workers : Map Text
  pub cur : Tree
  pub rev : ℕ
  pub last_id : Option ℕ
  pub suppressed : ℕ
  pub notified : ℕ

unfoldable pub is_settled : Text → Bool
is_settled status =
    text_eq status (bytes "idle")
    || (text_eq status (bytes "done")
        || (text_eq status (bytes "blocked")
            || (text_eq status (bytes "waiting") || text_eq status (bytes "exited"))))

-- The empty text that Go reads for a missing key.
abbrev pub or_empty : Option Text → Text
or_empty none = []
or_empty (some t) = t

-- `TargetSep` after a session's name.
abbrev pub prefix : Text → Text
prefix session = session ++ (target_sep ∷ [])

unfoldable pub has_session : Text → Text → Bool
has_session session key =
    ltb (length (prefix session)) (length key) && has_prefix key (prefix session)

unfoldable pub forget_key : Writer → Text → Writer
forget_key m key = record m {
  done_seq = delete key m.done_seq;
  last_state = delete key m.last_state;
  changed_at = delete key m.changed_at;
}

-- A loop over the keys of `doneSeq` that drops those that the test picks.
unfoldable pub forget_keys : (Text → Bool) → List Text → Writer → Writer
unfolding forget_key
forget_keys picks [] m = m
forget_keys picks (key ∷ keys) m =
    forget_keys picks keys (if picks key then forget_key m key else m)

unfoldable pub forget_session : Writer → Text → Writer
unfolding forget_keys has_session
forget_session m name = forget_keys (has_session name) (keys m.done_seq) m

-- A status that differs from the last one seen.
unfoldable pub changed : Writer → ℕ → Text → Text → Text → Writer
unfolding is_settled
changed m now key prev status = record m {
  last_state = insert key status m.last_state;
  changed_at = if is_empty prev then m.changed_at else insert key now m.changed_at;
  done_seq =
      if is_settled status && not (is_empty prev)
      then insert key (or_zero (lookup key m.done_seq) + 1) m.done_seq
      else m.done_seq;
}

-- The body of the loop over the panes, under the pane's key.
unfoldable pub observe : Writer → ℕ → Text → Pane → Writer
unfolding changed
observe m now key p =
    let prev = or_empty (lookup key m.last_state) in
    let m' = if text_eq prev p.agent_status then m else changed m now key prev p.agent_status in
    if p.focused then record m' { done_seq = insert key 0 m'.done_seq } else m'

unfoldable pub observe_all : Writer → ℕ → Text → List Pane → Writer
unfolding observe join_target
observe_all m now session [] = m
observe_all m now session (p ∷ ps) =
    observe_all (observe m now (join_target session p.pane_id) p) now session ps

-- A pane of the session that the snapshot no longer has.
unfoldable pub is_gone : Text → List Pane → Text → Bool
unfolding has_session join_target
is_gone session panes key =
    has_session session key
    && not (any_of (λ (p : Pane). text_eq (join_target session p.pane_id) key) panes)

unfoldable pub applied : Writer → ℕ → Text → SessionState → Snapshot → Writer
unfolding observe_all is_gone forget_keys
applied m now session st snap =
    let st' = record st { snapshot = some snap } in
    let m' = record m { sessions = insert session st' m.sessions } in
    let m'' = observe_all m' now session snap.panes in
    forget_keys (is_gone session snap.panes) (keys m''.done_seq) m''

unfoldable pub apply_snapshot : Store → Writer → ℕ → Text → Snapshot → Writer
unfolding applied filter_snapshot
apply_snapshot s m now session snap = elim (lookup session m.sessions) [
  | none ↦ m
  | some st ↦ applied m now session st (filter_snapshot s.scope snap)
]
