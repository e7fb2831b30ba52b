-- ===== src/Core/Scope/Targets.antt =====
-- Which targets internal/core/scope.go lets through.
use herdr_expose.Prelude.{◌≡◌, ◌≢◌, refl, ◌⊎◌, ◌↔◌, inl, inr, true, false, some, [], ◌∷◌, arith}
use herdr_expose.Prelude.Lists.{is_empty, is_empty_ne}
use herdr_expose.Prelude.Text.{Text, Lacks, text_eq_iff, text_eq_refl, text_eq_ne, member}
use herdr_expose.Core.Target.{target_sep, split_target, join_target, session_of, id_of}
use herdr_expose.Core.Target.Laws.{split_target-join_target}
use herdr_expose.Core.Scope.{Scope, admits, allows_pane, allows_session, allows_target, is_pane_id}

-- What an active scope stands for: its own session, named or left out, and no pane but its own.
pub record Inside (s : Scope) (session id : Text) : Type 0 where
  pub own_session : (session ≡ []) ⊎ (session ≡ s.session)
  pub own_pane :
      (is_empty s.pane_set ≡ true) ⊎ ((is_pane_id id ≡ false) ⊎ (member id s.pane_set ≡ true))

admits-Inside :
    (s : Scope) (session id : Text)
    → is_empty s.session ≡ false
    → (admits s (session, id) ≡ true) ↔ Inside s session id
unfolding admits allows_pane
admits-Inside s session id h = (
  λ e. record { own_session = to_session session e; own_pane = ground arith },
  λ v. ground (arith, text_eq_iff session s.session, text_eq_refl s.session),
)
  where
    to_session :
        (session : Text) → admits s (session, id) ≡ true → (session ≡ []) ⊎ (session ≡ s.session)
    to_session [] e = inl refl
    to_session (x ∷ xs) e = inr (ground (arith, text_eq_iff (x ∷ xs) s.session))

-- An active scope lets exactly those targets through that name its session, or none, and, where it
-- lists panes, whose id is one of these or is no pane's id at all.
pub allows_target-Inside :
    (s : Scope) (target : Text)
    → is_empty s.session ≡ false
    → (allows_target (some s) target ≡ true) ↔ Inside s (session_of target) (id_of target)
unfolding allows_target session_of id_of
allows_target-Inside s target h =
    rw h (admits-Inside s (split_target target).0 (split_target target).1 h)

-- No id of another session is reachable through a scoped instance, whatever the id.
allows_target-other_session :
    (s : Scope) (session id : Text)
    → is_empty s.session ≡ false
    → session ≢ []
    → session ≢ s.session
    → id ≢ []
    → Lacks target_sep session
    → (allows_target (some s) (join_target session id) ≡ false)
      × (allows_session (some s) session ≡ false)
unfolding allows_target allows_session
allows_target-other_session s session id h p q r l =
    rw
      (
        h,
        split_target-join_target session id p r l,
        is_empty_ne session p,
        text_eq_ne session s.session q,
      )
      (refl, refl)
