-- ===== src/Tests/Sessions.antt =====
-- The session store at concrete inputs.
use herdr_expose.Core.Scope.{Scope}
use herdr_expose.Core.Sessions.Resolve.{resolve-IsRoute, resolve, IsRoute}
use herdr_expose.Core.Seen.{SeenSet}
use herdr_expose.Core.Sessions.Stale.{forgotten_session_makes_badge}
use herdr_expose.Core.Coalescer.{add_uint64}
use herdr_expose.Core.Sessions.Badges.{other_session-Untouched, Untouched}
use herdr_expose.Prelude.Lists.{length}
use herdr_expose.Core.Sessions.Reconcile.{reconcile}
use herdr_expose.Upstream.Model.{blank_snapshot, blank_pane, Pane}
use herdr_expose.Prelude.Map.{lookup}
use herdr_expose.Core.Sessions.{
  Store, forget_session, apply_snapshot, observe, is_settled, Writer, Info, has_session,
  SessionState, Tree,
}
use herdr_expose.Core.Sessions.Publish.{publish-IsFresh, content, build_tree, publish, IsFresh}
use herdr_expose.Core.Sessions.Pinned.{reconcile-IsPinned, Allowed, IsPinned}
use herdr_expose.Prelude.{ℕ, ◌+◌, ◌≡◌, refl, ◌⊎◌, true, false, Option, none, some, List, [], ◌∷◌}
use herdr_expose.Prelude.Text.{has_prefix, text_eq, bytes}

abbrev blank_tree : Tree
blank_tree = record {
  rev = 0;
  connected = false;
  version = [];
  protocol = 0;
  focused_session = [];
  sessions = [];
  done_seq = [];
  changed_at = [];
  at = 0;
}

abbrev pinned_store : Store
pinned_store = record {
  scope = some (record { session = bytes "work"; panes = []; pane_set = [] });
  origin_name = [];
  origin_socket = bytes "/tmp/work";
  workers = [];
  cur = blank_tree;
  rev = 0;
  last_id = none;
  suppressed = 0;
  notified = 0;
}

-- A stand-in for the hash of a tree.
abbrev count_sessions : Tree → Option ℕ
count_sessions t = some (length t.sessions)

abbrev work : SessionState
work = record {
  name = bytes "work";
  socket = bytes "/tmp/work";
  running = true;
  connected = true;
  origin = true;
  default = false;
  version = bytes "0.9.0";
  protocol = 16;
  error = [];
  snapshot = none;
}

abbrev writer : Writer
writer = record {
  sessions = (bytes "work", work) ∷ [];
  done_seq = (bytes "home/w1:p1", 3) ∷ [];
  last_state = (bytes "home/w1:p1", bytes "idle") ∷ (bytes "work/w1:p1", bytes "working") ∷ [];
  changed_at = [];
}

abbrev pane : Pane
pane = blank_pane (bytes "w1:p1") (bytes "w1:t1") (bytes "w1") (bytes "idle")

abbrev blank_writer : Writer
blank_writer = record { sessions = []; done_seq = []; last_state = []; changed_at = [] }

abbrev listing : List Info
listing =
    record {
      name = bytes "home";
      socket_path = bytes "/tmp/home";
      session_dir = [];
      running = true;
      default = true;
    }
    ∷ record {
      name = bytes "work";
      socket_path = bytes "/tmp/work";
      session_dir = [];
      running = true;
      default = false;
    }
    ∷ []

blank-IsPinned : IsPinned (pinned_store, blank_writer)
unfolding Allowed lookup
blank-IsPinned = ((λ name e. cc), (λ name e. cc))

reconcile-IsPinned_example : IsPinned (reconcile count_sessions pinned_store blank_writer 9 listing)
reconcile-IsPinned_example =
    reconcile-IsPinned count_sessions pinned_store blank_writer 9 listing blank-IsPinned

blank-IsFresh : IsFresh count_sessions pinned_store
unfolding IsFresh
blank-IsFresh id e = cc

publish-IsFresh_example :
    let s' = publish count_sessions pinned_store writer 9 in
    (count_sessions (content s'.cur) ≡ count_sessions (content (build_tree writer 9)))
    × (IsFresh count_sessions s'
        × (((s'.cur ≡ pinned_store.cur)
              × ((s'.rev ≡ pinned_store.rev) × (s'.notified ≡ pinned_store.notified)))
            ⊎ ((content s'.cur ≡ content (build_tree writer 9))
                × ((s'.rev ≡ add_uint64 pinned_store.rev 1)
                    × (s'.notified ≡ pinned_store.notified + 1)))))
publish-IsFresh_example =
    publish-IsFresh count_sessions pinned_store writer 9 (λ t. (length t.sessions, refl))
      blank-IsFresh

other_session-Untouched_example :
    Untouched
      (bytes "home/w1:p1")
      writer
      (apply_snapshot pinned_store writer 9 (bytes "work") (blank_snapshot (pane ∷ [])))
    × Untouched (bytes "home/w1:p1") writer (forget_session writer (bytes "work"))
unfolding has_session has_prefix
other_session-Untouched_example =
    other_session-Untouched pinned_store writer 9 (bytes "work") (bytes "home/w1:p1")
      (blank_snapshot (pane ∷ [])) (λ e. cc) (λ e. cc) refl

forgotten_session_makes_badge_example :
    lookup
      (bytes "work/w1:p1")
      (observe (forget_session writer (bytes "work")) 9 (bytes "work/w1:p1") pane).done_seq
    ≡ some 1
unfolding lookup text_eq is_settled
forgotten_session_makes_badge_example =
    forgotten_session_makes_badge writer 9 (bytes "work") (bytes "work/w1:p1") (bytes "working")
      pane refl refl refl refl refl refl

abbrev work_scope : Scope
work_scope = record { session = bytes "work"; panes = []; pane_set = [] }

resolve-IsRoute_example :
    IsRoute pinned_store work_scope (bytes "work/w1:p1") (resolve pinned_store (bytes "work/w1:p1"))
resolve-IsRoute_example = resolve-IsRoute pinned_store work_scope (bytes "work/w1:p1") refl refl

abbrev marks : SeenSet
marks = (bytes "work/w1:p1", 2) ∷ []
