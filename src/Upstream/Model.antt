-- ===== src/Upstream/Model.antt =====
-- internal/upstream/model.go: the snapshot of one Herdr session. Integers are natural numbers here;
-- the code under verification only copies them.
use herdr_expose.Prelude.{ℕ, Bool, Option, List, []}
use herdr_expose.Prelude.Text.{Text}

pub record AgentSession : Type 0 where
  pub source : Text
  pub agent : Text
  pub kind : Text
  pub value : Text

pub record Scroll : Type 0 where
  pub offset_from_bottom : ℕ
  pub max_offset_from_bottom : ℕ
  pub viewport_rows : ℕ

pub record Pane : Type 0 where
  pub pane_id : Text
  pub terminal_id : Text
  pub workspace_id : Text
  pub tab_id : Text
  pub focused : Bool
  pub cwd : Text
  pub foreground_cwd : Text
  pub agent : Text
  pub label : Text
  pub title : Text
  pub display_agent : Text
  pub terminal_title : Text
  pub terminal_title_stripped : Text
  pub agent_status : Text
  pub agent_session : Option AgentSession
  pub scroll : Option Scroll
  pub revision : ℕ

pub record Tab : Type 0 where
  pub tab_id : Text
  pub workspace_id : Text
  pub number : ℕ
  pub label : Text
  pub focused : Bool
  pub pane_count : ℕ
  pub agent_status : Text

pub record Workspace : Type 0 where
  pub workspace_id : Text
  pub number : ℕ
  pub label : Text
  pub focused : Bool
  pub pane_count : ℕ
  pub tab_count : ℕ
  pub active_tab_id : Text
  pub agent_status : Text

pub record Agent : Type 0 where
  pub terminal_id : Text
  pub agent : Text
  pub name : Text
  pub terminal_title : Text
  pub terminal_title_stripped : Text
  pub agent_status : Text
  pub agent_session : Option AgentSession
  pub workspace_id : Text
  pub tab_id : Text
  pub pane_id : Text
  pub focused : Bool
  pub state_change_seq : ℕ
  pub cwd : Text
  pub foreground_cwd : Text
  pub revision : ℕ

pub record Rect : Type 0 where
  pub x : ℕ
  pub y : ℕ
  pub width : ℕ
  pub height : ℕ

pub record LayoutPane : Type 0 where
  pub pane_id : Text
  pub focused : Bool
  pub rect : Rect

pub record Layout : Type 0 where
  pub workspace_id : Text
  pub tab_id : Text
  pub area : Rect
  pub panes : List LayoutPane
  pub zoomed : Bool

pub record Snapshot : Type 0 where
  pub version : Text
  pub protocol : ℕ
  pub focused_workspace : Text
  pub focused_tab_id : Text
  pub focused_pane_id : Text
  pub workspaces : List Workspace
  pub tabs : List Tab
  pub panes : List Pane
  pub layouts : List Layout
  pub agents : List Agent

-- A pane with nothing but its ids and status set, as the zero values of Go leave it.
abbrev pub blank_pane : Text → Text → Text → Text → Pane
blank_pane id tab workspace status = record {
  pane_id = id;
  terminal_id = [];
  workspace_id = workspace;
  tab_id = tab;
  focused = Bool.false;
  cwd = [];
  foreground_cwd = [];
  agent = [];
  label = [];
  title = [];
  display_agent = [];
  terminal_title = [];
  terminal_title_stripped = [];
  agent_status = status;
  agent_session = Option.none;
  scroll = Option.none;
  revision = 0;
}

abbrev pub blank_snapshot : List Pane → Snapshot
blank_snapshot ps = record {
  version = [];
  protocol = 0;
  focused_workspace = [];
  focused_tab_id = [];
  focused_pane_id = [];
  workspaces = [];
  tabs = [];
  panes = ps;
  layouts = [];
  agents = [];
}
