-- ===== src/Core/Scope/Contents.antt =====
-- What internal/core/scope.go lets a scoped client see of a snapshot.
use herdr_expose.Prelude.{◌≡◌, refl, ◌⊎◌, inl, inr, true, false, some, List, [], ◌∷◌}
use herdr_expose.Prelude.Tests.{Bool-cases}
use herdr_expose.Prelude.Lists.{is_empty, keep_if, In, In-keep_if, keep_if-In, any_of-In, In-any_of}
use herdr_expose.Prelude.Text.{Text, text_eq, text_eq_iff, member}
use herdr_expose.Upstream.Model.{Snapshot, Pane, Tab, Workspace, Agent}
use herdr_expose.Core.Scope.{
  Scope, keep_tab, keep_workspace, first_pane_id, contained, filter_snapshot,
}

-- A pane-scoped view holds only panes and agents of the set, only tabs and workspaces of panes
-- that it holds, no layout, and no focus outside of these.
pub record IsContained (s : Scope) (v : Snapshot) : Type 0 where
  pub panes : (p : Pane) → In p v.panes → member p.pane_id s.pane_set ≡ true
  pub agents : (a : Agent) → In a v.agents → member a.pane_id s.pane_set ≡ true
  pub tabs : (t : Tab) → In t v.tabs → (p : Pane) × In p v.panes × (t.tab_id ≡ p.tab_id)
  pub workspaces :
      (w : Workspace)
      → In w v.workspaces
      → (p : Pane) × In p v.panes × (w.workspace_id ≡ p.workspace_id)
  pub layouts : v.layouts ≡ []
  pub focused_pane : (v.focused_pane_id ≡ []) ⊎ (member v.focused_pane_id s.pane_set ≡ true)
  pub focused_tab :
      (v.focused_tab_id ≡ []) ⊎ ((p : Pane) × In p v.panes × (v.focused_tab_id ≡ p.tab_id))
  pub focused_workspace :
      (v.focused_workspace ≡ [])
      ⊎ ((p : Pane) × In p v.panes × (v.focused_workspace ≡ p.workspace_id))

keep_tab-In :
    (kept : List Pane) (id : Text)
    → keep_tab kept id ≡ true
    → (p : Pane) × In p kept × (id ≡ p.tab_id)
unfolding keep_tab
keep_tab-In kept id h =
    let (p, i, e) = any_of-In (λ (p : Pane). text_eq id p.tab_id) kept h in
    (p, i, (text_eq_iff id p.tab_id).0 e)

keep_workspace-In :
    (kept : List Pane) (id : Text)
    → keep_workspace kept id ≡ true
    → (p : Pane) × In p kept × (id ≡ p.workspace_id)
unfolding keep_workspace
keep_workspace-In kept id h =
    let (p, i, e) = any_of-In (λ (p : Pane). text_eq id p.workspace_id) kept h in
    (p, i, (text_eq_iff id p.workspace_id).0 e)

first_pane_id-member :
    (s : Scope) (kept : List Pane)
    → ((p : Pane) → In p kept → member p.pane_id s.pane_set ≡ true)
    → (first_pane_id kept ≡ []) ⊎ (member (first_pane_id kept) s.pane_set ≡ true)
unfolding first_pane_id
first_pane_id-member s [] h = inl refl
first_pane_id-member s (p ∷ ps) h = inr (h p (inl refl))

abbrev kept_panes : Scope → Snapshot → List Pane
kept_panes s snap = keep_if (λ (p : Pane). member p.pane_id s.pane_set) snap.panes

contained-IsContained : (s : Scope) (snap : Snapshot) → IsContained s (contained s snap)
unfolding contained
contained-IsContained s snap = record {
  panes = λ p i. (In-keep_if _ p snap.panes i).1;
  agents = λ a i. (In-keep_if _ a snap.agents i).1;
  tabs = λ t i. keep_tab-In (kept_panes s snap) t.tab_id (In-keep_if _ t snap.tabs i).1;
  workspaces = λ w i.
      keep_workspace-In (kept_panes s snap) w.workspace_id (In-keep_if _ w snap.workspaces i).1;
  layouts = refl;
  focused_pane = elim (Bool-cases (member snap.focused_pane_id s.pane_set)) [
    | inl e ↦ rw e (inr e)
    | inr e ↦
        rw e (first_pane_id-member s (kept_panes s snap) (λ p i. (In-keep_if _ p snap.panes i).1))
  ];
  focused_tab = elim (Bool-cases (keep_tab (kept_panes s snap) snap.focused_tab_id)) [
    | inl e ↦ rw e (inr (keep_tab-In (kept_panes s snap) snap.focused_tab_id e))
    | inr e ↦ rw e (inl refl)
  ];
  focused_workspace =
      elim (Bool-cases (keep_workspace (kept_panes s snap) snap.focused_workspace)) [
        | inl e ↦ rw e (inr (keep_workspace-In (kept_panes s snap) snap.focused_workspace e))
        | inr e ↦ rw e (inl refl)
      ];
}

-- A client of a pane-scoped share sees nothing that is outside of the share's panes: the view holds
-- only panes and agents of the set, the tabs and workspaces of these panes, no layout, and a focus
-- that is empty or inside.
pub filter_snapshot-IsContained :
    (s : Scope) (snap : Snapshot)
    → is_empty s.session ≡ false
    → is_empty s.pane_set ≡ false
    → IsContained s (filter_snapshot (some s) snap)
unfolding filter_snapshot
filter_snapshot-IsContained s snap h k = rw (h, k) (contained-IsContained s snap)

keep_tab-of_In : (kept : List Pane) (p : Pane) → In p kept → keep_tab kept p.tab_id ≡ true
unfolding keep_tab
keep_tab-of_In kept p i =
    In-any_of (λ (q : Pane). text_eq p.tab_id q.tab_id) p kept i ((text_eq_iff _ _).1 refl)

keep_workspace-of_In :
    (kept : List Pane) (p : Pane) → In p kept → keep_workspace kept p.workspace_id ≡ true
unfolding keep_workspace
keep_workspace-of_In kept p i =
    In-any_of (λ (q : Pane). text_eq p.workspace_id q.workspace_id) p kept i
      ((text_eq_iff _ _).1 refl)

-- What a view has to keep of a snapshot: the panes and the agents of the set, the tab and the
-- workspace of each such pane, and the focus where it is on one of these.
pub record IsComplete (s : Scope) (snap v : Snapshot) : Type 0 where
  pub panes : (p : Pane) → In p snap.panes → member p.pane_id s.pane_set ≡ true → In p v.panes
  pub agents : (a : Agent) → In a snap.agents → member a.pane_id s.pane_set ≡ true → In a v.agents
  pub tabs :
      (t : Tab) (p : Pane)
      → In t snap.tabs
      → In p snap.panes
      → member p.pane_id s.pane_set ≡ true
      → t.tab_id ≡ p.tab_id
      → In t v.tabs
  pub workspaces :
      (w : Workspace) (p : Pane)
      → In w snap.workspaces
      → In p snap.panes
      → member p.pane_id s.pane_set ≡ true
      → w.workspace_id ≡ p.workspace_id
      → In w v.workspaces
  pub focused_pane :
      member snap.focused_pane_id s.pane_set ≡ true → v.focused_pane_id ≡ snap.focused_pane_id
  pub focused_tab :
      (p : Pane)
      → In p snap.panes
      → member p.pane_id s.pane_set ≡ true
      → snap.focused_tab_id ≡ p.tab_id
      → v.focused_tab_id ≡ snap.focused_tab_id
  pub focused_workspace :
      (p : Pane)
      → In p snap.panes
      → member p.pane_id s.pane_set ≡ true
      → snap.focused_workspace ≡ p.workspace_id
      → v.focused_workspace ≡ snap.focused_workspace

whole-IsComplete : (s : Scope) (snap : Snapshot) → IsComplete s snap snap
whole-IsComplete s snap = record {
  panes = λ p i m. i;
  agents = λ a i m. i;
  tabs = λ t p j i m e. j;
  workspaces = λ w p j i m e. j;
  focused_pane = λ m. refl;
  focused_tab = λ p i m e. refl;
  focused_workspace = λ p i m e. refl;
}

kept_tab :
    (s : Scope) (snap : Snapshot) (p : Pane) (id : Text)
    → In p snap.panes
    → member p.pane_id s.pane_set ≡ true
    → id ≡ p.tab_id
    → keep_tab (kept_panes s snap) id ≡ true
kept_tab s snap p id i m e =
    rw e (keep_tab-of_In (kept_panes s snap) p (keep_if-In _ p snap.panes i m))

kept_workspace :
    (s : Scope) (snap : Snapshot) (p : Pane) (id : Text)
    → In p snap.panes
    → member p.pane_id s.pane_set ≡ true
    → id ≡ p.workspace_id
    → keep_workspace (kept_panes s snap) id ≡ true
kept_workspace s snap p id i m e =
    rw e (keep_workspace-of_In (kept_panes s snap) p (keep_if-In _ p snap.panes i m))

contained-IsComplete : (s : Scope) (snap : Snapshot) → IsComplete s snap (contained s snap)
unfolding contained
contained-IsComplete s snap = record {
  panes = λ p i m. keep_if-In _ p snap.panes i m;
  agents = λ a i m. keep_if-In _ a snap.agents i m;
  tabs = λ t p j i m e. keep_if-In _ t snap.tabs j (kept_tab s snap p t.tab_id i m e);
  workspaces = λ w p j i m e.
      keep_if-In _ w snap.workspaces j (kept_workspace s snap p w.workspace_id i m e);
  focused_pane = λ m. rw m refl;
  focused_tab = λ p i m e. rw (kept_tab s snap p snap.focused_tab_id i m e) refl;
  focused_workspace = λ p i m e. rw (kept_workspace s snap p snap.focused_workspace i m e) refl;
}

-- Under any scope the view keeps every pane and every agent of the set, the tab and the workspace of
-- each of these panes, and a focus that is on one of them. The layouts are not among it.
pub filter_snapshot-IsComplete :
    (s : Scope) (snap : Snapshot) → IsComplete s snap (filter_snapshot (some s) snap)
unfolding filter_snapshot
filter_snapshot-IsComplete s snap = elim (Bool-cases (is_empty s.session)) [
  | inl c ↦ rw c (whole-IsComplete s snap)
  | inr c ↦ elim (Bool-cases (is_empty s.pane_set)) [
    | inl d ↦ rw (c, d) (whole-IsComplete s snap)
    | inr d ↦ rw (c, d) (contained-IsComplete s snap)
  ]
]
