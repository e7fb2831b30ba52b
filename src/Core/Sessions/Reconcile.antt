-- ===== src/Core/Sessions/Reconcile.antt =====
-- `reconcile` of internal/core/store.go: a discovery listing against the attached sessions.

use herdr_expose.Prelude.Lists.{is_empty}
use herdr_expose.Prelude.Map.{lookup, insert, delete}
use herdr_expose.Core.Sessions.Publish.{publish}
use herdr_expose.Core.Sessions.{Store, keys, Tree, Writer, Info, SessionState, forget_session}
use herdr_expose.Core.Scope.{allows_session}
use herdr_expose.Prelude.{ℕ, Bool, true, false, not, ◌&&◌, ◌||◌, Option, none, some, List, [], ◌∷◌}
use herdr_expose.Prelude.Tests.{is_some, if◌then◌else◌}
use herdr_expose.Prelude.Text.{member, text_eq, Text}

unfoldable pub ensure_worker : Store → Info → Store
ensure_worker s info = elim (lookup info.name s.workers) [
  | none ↦ record s { workers = insert info.name info.socket_path s.workers }
  | some path ↦
      if text_eq path info.socket_path
      then s
      else record s { workers = insert info.name info.socket_path s.workers }
]

unfoldable pub stop_worker : Store → Text → Store × Bool
stop_worker s name = (record s { workers = delete name s.workers }, is_some (lookup name s.workers))

abbrev pub new_session : Text → SessionState
new_session name = record {
  name = name;
  socket = [];
  running = false;
  connected = false;
  origin = false;
  default = false;
  version = [];
  protocol = 0;
  error = [];
  snapshot = none;
}

unfoldable pub described : Store → Info → SessionState → SessionState
described s info st = record st {
  socket = info.socket_path;
  running = info.running;
  default = info.default;
  origin =
      text_eq info.socket_path s.origin_socket
      || (not (is_empty s.origin_name) && text_eq info.name s.origin_name);
}

-- An entry whose session does not run: its worker, if there is one, is stopped.
unfoldable pub detached : Store × Bool → Writer → Text → SessionState → Store × Writer
unfolding forget_session
detached (s, true) m name st = (
  s,
  forget_session
      (record m {
        sessions = insert name (record st { connected = false; snapshot = none }) m.sessions;
      })
      name,
)
detached (s, false) m name st = (s, record m { sessions = insert name st m.sessions })

unfoldable pub attached : Store → Writer → Info → SessionState → Store × Writer
unfolding described ensure_worker detached stop_worker
attached s m info st0 =
    let st = described s info st0 in
    if info.running
    then (ensure_worker s info, record m { sessions = insert info.name st m.sessions })
    else detached (stop_worker s info.name) m info.name st

-- The entry of a listed session, in scope.
unfoldable pub listed : Store → Writer → Info → Store × Writer
unfolding attached
listed s m info = elim (lookup info.name m.sessions) [
  | none ↦ if info.running then attached s m info (new_session info.name) else (s, m)
  | some st ↦ attached s m info st
]

-- The first loop, with the names it has seen.
unfoldable pub list_all : List Info → Store × Writer → List Text → (Store × Writer) × List Text
unfolding listed allows_session
list_all [] x seen = (x, seen)
list_all (info ∷ infos) (s, m) seen =
    let in_scope = allows_session s.scope info.name in
    list_all infos (if in_scope then listed s m info else (s, m))
      (if in_scope then info.name ∷ seen else seen)

-- The second loop, over the names of the entries.
unfoldable pub drop_vanished : List Text → List Text → Store × Writer → Store × Writer
unfolding stop_worker forget_session
drop_vanished [] seen x = x
drop_vanished (name ∷ names) seen (s, m) = drop_vanished names seen (
    if member name seen then (s, m) else (
      (stop_worker s name).0,
      forget_session (record m { sessions = delete name m.sessions }) name,
    ))

unfoldable pub reconcile : (Tree → Option ℕ) → Store → Writer → ℕ → List Info → Store × Writer
unfolding list_all drop_vanished publish
reconcile identity s m now infos =
    let (x, seen) = list_all infos (s, m) [] in
    let (s', m') = drop_vanished (keys x.1.sessions) seen x in (publish identity s' m' now, m')
