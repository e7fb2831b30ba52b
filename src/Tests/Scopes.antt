-- ===== src/Tests/Scopes.antt =====
-- The share scope at concrete inputs.
use herdr_expose.Core.Scope.Targets.{allows_target-Inside, Inside}
use herdr_expose.Core.Target.{id_of, session_of}
use herdr_expose.Core.Scope.{filter_snapshot, allows_target, Scope}
use herdr_expose.Core.Scope.Contents.{
  filter_snapshot-IsComplete, IsComplete, filter_snapshot-IsContained, IsContained,
}
use herdr_expose.Upstream.Model.{blank_pane, blank_snapshot, Tab, Pane, Snapshot}
use herdr_expose.Prelude.{◌≡◌, refl, ◌↔◌, true, some, [], ◌∷◌}
use herdr_expose.Prelude.Text.{bytes}

abbrev share : Scope
share = record { session = bytes "work"; panes = bytes "w1:p1" ∷ []; pane_set = bytes "w1:p1" ∷ [] }

abbrev pane : Pane
pane = blank_pane (bytes "w1:p1") (bytes "w1:t1") (bytes "w1") (bytes "idle")

abbrev tab : Tab
tab = record {
  tab_id = bytes "w1:t1";
  workspace_id = bytes "w1";
  number = 1;
  label = [];
  focused = true;
  pane_count = 2;
  agent_status = [];
}

abbrev view : Snapshot
view =
    record (blank_snapshot
      (pane ∷ blank_pane (bytes "w1:p2") (bytes "w1:t2") (bytes "w1") (bytes "working") ∷ [])) {
        tabs = tab ∷ [];
      }

filter_snapshot-IsContained_example : IsContained share (filter_snapshot (some share) view)
filter_snapshot-IsContained_example = filter_snapshot-IsContained share view refl refl

filter_snapshot-IsComplete_example : IsComplete share view (filter_snapshot (some share) view)
filter_snapshot-IsComplete_example = filter_snapshot-IsComplete share view

allows_target-Inside_example :
    (allows_target (some share) (bytes "work/w1:p1") ≡ true)
    ↔ Inside share (session_of (bytes "work/w1:p1")) (id_of (bytes "work/w1:p1"))
allows_target-Inside_example = allows_target-Inside share (bytes "work/w1:p1") refl
