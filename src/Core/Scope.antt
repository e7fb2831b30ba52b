-- ===== src/Core/Scope.antt =====
-- internal/core/scope.go: the share scope that pins an instance to one session and some panes.
-- A nil `*Scope` is `none`. The nil snapshot, which `filterSnapshot` hands back, has no value here.
pub mod Contents
pub mod Targets
use herdr_expose.Prelude.{
  ◌&&◌, ◌||◌, ◌++◌, Bool, true, false, not, Option, none, some, List, [], ◌∷◌,
}
use herdr_expose.Prelude.Tests.{if◌then◌else◌}
use herdr_expose.Prelude.Lists.{is_empty, any_of, keep_if, snoc, head_or}
use herdr_expose.Prelude.Text.{
  Text, bytes, contains, text_eq, member, trim_space, split_on, sort_texts,
}
use herdr_expose.Core.Target.{target_sep, split_target}
use herdr_expose.Upstream.Model.{Snapshot, Pane, Tab, Workspace, Agent}

pub record Scope : Type 0 where
  pub session : Text
  pub panes : List Text
  -- The keys of the map `paneSet`.
  pub pane_set : List Text

-- What `ParseScope` refuses.
pub data ScopeError : Type 0 where
  only_is_target bad_target wrong_session : Text → ScopeError

pub data Parsed : Type 0 where
  ok : Option Scope → Parsed
  err : ScopeError → Parsed

unfoldable pub index : Option Scope → Option Scope
index none = none
index (some s) =
    let panes = sort_texts s.panes in some (record s { panes = panes; pane_set = panes })

unfoldable pub base : Option Scope → Text → Scope
base none session = record { session = session; panes = []; pane_set = [] }
base (some s) session = s

-- The body of the inner loop, past the two tests.
unfoldable pub pin : Scope → Text → Text → Text → Parsed
pin s session pane part =
    if text_eq s.session session
    then ok (some (record s { panes = snoc s.panes pane }))
    else err (wrong_session part)

unfoldable pub add_target : Option Scope → Text → Text × Text → Parsed
add_target sc part (session, pane) =
    if is_empty session || is_empty pane
    then err (bad_target part)
    else pin (base sc session) session pane part

unfoldable pub add_part : Option Scope → Text → Parsed
add_part sc raw =
    let part = trim_space raw in
    if is_empty part then ok sc else add_target sc part (split_target part)

unfoldable pub add_parts : Parsed → List Text → Parsed
add_parts (err e) parts = err e
add_parts (ok sc) [] = ok sc
add_parts (ok sc) (raw ∷ parts) = add_parts (add_part sc raw) parts

-- The loop over the flags, each with its comma-separated parts.
unfoldable pub add_targets : Parsed → List Text → Parsed
add_targets r [] = r
add_targets r (raw ∷ raws) = add_targets (add_parts r (split_on b',' raw)) raws

unfoldable pub only_scope : Text → Parsed
only_scope only =
    if is_empty only
    then ok none
    else if contains only (target_sep ∷ [])
    then err (only_is_target only)
    else ok (some (record { session = only; panes = []; pane_set = [] }))

unfoldable pub indexed : Parsed → Parsed
indexed (ok sc) = ok (index sc)
indexed (err e) = err e

unfoldable pub parse_scope : Text → List Text → Parsed
parse_scope only only_targets = indexed (add_targets (only_scope (trim_space only)) only_targets)

unfoldable pub active : Option Scope → Bool
active none = false
active (some s) = not (is_empty s.session)

unfoldable pub allows_session : Option Scope → Text → Bool
allows_session none name = true
allows_session (some s) name = if is_empty s.session then true else text_eq name s.session

unfoldable pub is_pane_id : Text → Bool
is_pane_id id = contains id (bytes ":p")

unfoldable pub allows_pane : Option Scope → Text → Bool
unfolding is_pane_id
allows_pane none id = true
allows_pane (some s) id =
    if is_empty s.session || is_empty s.pane_set
    then true
    else if is_pane_id id
    then member id s.pane_set
    else true

unfoldable pub admits : Scope → Text × Text → Bool
admits s (session, id) =
    text_eq (if is_empty session then s.session else session) s.session && allows_pane (some s) id

unfoldable pub allows_target : Option Scope → Text → Bool
unfolding admits
allows_target none target = true
allows_target (some s) target = if is_empty s.session then true else admits s (split_target target)

-- The keys of the maps `keepTab` and `keepWS`, after the loop over the panes.
unfoldable pub keep_tab : List Pane → Text → Bool
keep_tab kept id = any_of (λ (p : Pane). text_eq id p.tab_id) kept

unfoldable pub keep_workspace : List Pane → Text → Bool
keep_workspace kept id = any_of (λ (p : Pane). text_eq id p.workspace_id) kept

unfoldable pub first_pane_id : List Pane → Text
first_pane_id [] = []
first_pane_id (p ∷ ps) = p.pane_id

unfoldable pub contained : Scope → Snapshot → Snapshot
unfolding keep_tab keep_workspace first_pane_id
contained s snap =
    let kept = keep_if (λ (p : Pane). member p.pane_id s.pane_set) snap.panes in
    record snap {
      panes = kept;
      tabs = keep_if (λ (t : Tab). keep_tab kept t.tab_id) snap.tabs;
      workspaces = keep_if (λ (w : Workspace). keep_workspace kept w.workspace_id) snap.workspaces;
      agents = keep_if (λ (a : Agent). member a.pane_id s.pane_set) snap.agents;
      layouts = [];
      focused_pane_id =
          if member snap.focused_pane_id s.pane_set
          then snap.focused_pane_id
          else first_pane_id kept;
      focused_tab_id = if keep_tab kept snap.focused_tab_id then snap.focused_tab_id else [];
      focused_workspace =
          if keep_workspace kept snap.focused_workspace then snap.focused_workspace else [];
    }

unfoldable pub filter_snapshot : Option Scope → Snapshot → Snapshot
unfolding contained
filter_snapshot none snap = snap
filter_snapshot (some s) snap =
    if is_empty s.session || is_empty s.pane_set then snap else contained s snap

abbrev pub scoped_commands : List Text
scoped_commands =
    bytes "agent.prompt"
    ∷ bytes "agent.send_keys"
    ∷ bytes "agent.read"
    ∷ bytes "pane.send_text"
    ∷ bytes "pane.send_keys"
    ∷ bytes "pane.send_input"
    ∷ bytes "pane.read"
    ∷ bytes "pane.scroll"
    ∷ bytes "pane.resize"
    ∷ bytes "pane.selection.read"
    ∷ bytes "pane.copy_search"
    ∷ bytes "pane.copy_motion"
    ∷ []

unfoldable pub command_allowed : Option Scope → Text → Bool
command_allowed none method = true
command_allowed (some s) method = if is_empty s.session then true else member method scoped_commands
