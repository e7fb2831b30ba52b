-- ===== src/Core/Sessions/Resolve.antt =====
-- `Resolve` and `Client` of internal/core/store.go: from a target of the wire to the session, the
-- client and the id that are used upstream. A client is the path of its worker's socket.

use herdr_expose.Core.Sessions.{Store}
use herdr_expose.Core.Target.{id_of, session_of}
use herdr_expose.Prelude.Map.{lookup}
use herdr_expose.Prelude.Lists.{is_empty}
use herdr_expose.Core.Scope.{allows_pane, Scope, admits, allows_target, allows_session}
use herdr_expose.Prelude.{
  ◌≡◌, refl, sym, ap, ap₂, ◌∙◌, inl, inr, true, false, not, Option, none, some, arith,
}
use herdr_expose.Prelude.Tests.{if◌then◌else◌, Bool-cases}
use herdr_expose.Prelude.Text.{text_eq_iff, Text}

pub data Resolved : Type 0 where
  found : Text → Text → Text → Resolved
  out_of_scope : Text → Resolved
  no_session : Text → Text → Resolved

-- The session that a name stands for: the default one for no name.
unfoldable pub named_or_default : Store → Text → Text
named_or_default s session = if is_empty session then s.cur.focused_session else session

unfoldable pub client : Store → Text → Option Text
unfolding named_or_default
client s session =
    let name = named_or_default s session in
    if allows_session s.scope name then lookup name s.workers else none

unfoldable pub routed : Text → Text → Option Text → Resolved
routed session id none = no_session session id
routed session id (some path) = found session path id

unfoldable pub resolve : Store → Text → Resolved
unfolding named_or_default client routed
resolve s target =
    if not (allows_target s.scope target)
    then out_of_scope target
    else let session = named_or_default s (session_of target) in
      routed session (id_of target) (client s session)

-- What a route of a pinned store may be: a worker of the scope's own session, and a pane of its set.
pub IsRoute : Store → Scope → Text → Resolved → Type 0
IsRoute s sc target (found session path id) =
    (session ≡ sc.session)
    × ((lookup session s.workers ≡ some path)
        × ((id ≡ id_of target) × (allows_pane (some sc) id ≡ true)))
IsRoute s sc target (out_of_scope t) = allows_target (some sc) target ≡ false
IsRoute s sc target (no_session session id) = allows_target (some sc) target ≡ true

default_again :
    (s : Store) (session : Text)
    → named_or_default s (named_or_default s session) ≡ named_or_default s session
unfolding named_or_default
default_again s session = ground arith

allows_target-pane :
    (sc : Scope) (target : Text)
    → is_empty sc.session ≡ false
    → allows_target (some sc) target ≡ true
    → allows_pane (some sc) (id_of target) ≡ true
unfolding allows_target admits id_of
allows_target-pane sc target h e = ground arith

allows_session-own :
    (sc : Scope) (name : Text)
    → is_empty sc.session ≡ false
    → allows_session (some sc) name ≡ true
    → name ≡ sc.session
unfolding allows_session
allows_session-own sc name h e = (text_eq_iff name sc.session).0 (ground arith)

routed-IsRoute :
    (s : Store) (sc : Scope) (target session : Text) (o : Option Text)
    → allows_target (some sc) target ≡ true
    → ((path : Text)
        → o ≡ some path
        → (session ≡ sc.session)
          × ((lookup session s.workers ≡ some path)
              × (allows_pane (some sc) (id_of target) ≡ true)))
    → IsRoute s sc target (routed session (id_of target) o)
unfolding routed IsRoute
routed-IsRoute s sc target session none a h = a
routed-IsRoute s sc target session (some path) a h =
    let (own, (worker, pane)) = h path refl in (own, (worker, (refl, pane)))

client-worker :
    (s : Store) (session path : Text)
    → client s session ≡ some path
    → (allows_session s.scope (named_or_default s session) ≡ true)
      × (lookup (named_or_default s session) s.workers ≡ some path)
unfolding client
client-worker s session path e =
    elim (Bool-cases (allows_session s.scope (named_or_default s session))) [
      | inl a ↦ (a, rw a at e)
      | inr a ↦ absurd (cc (rw a at e))
    ]

-- A pinned store routes a target only to a worker of the session it is pinned to, whatever session is
-- the default one, and only to a pane that its scope allows; it refuses a target as out of scope just
-- where the scope does not allow it.
pub resolve-IsRoute :
    (s : Store) (sc : Scope) (target : Text)
    → s.scope ≡ some sc
    → is_empty sc.session ≡ false
    → IsRoute s sc target (resolve s target)
unfolding resolve
resolve-IsRoute s sc target e h =
    let same : allows_target s.scope target ≡ allows_target (some sc) target =
      ap (λ (o : Option Scope). allows_target o target) e in
    elim (Bool-cases (allows_target s.scope target)) [
      | inl a ↦ simp a (
          routed-IsRoute s sc target (named_or_default s (session_of target))
            (client s (named_or_default s (session_of target))) (sym same ∙ a)
            λ path c.
              let (ok_, worker) = client-worker s (named_or_default s (session_of target)) path c in
              let again = default_again s (session_of target) in
              let allowed : allows_session (some sc) (named_or_default s (session_of target))
                  ≡ true =
                ap₂ allows_session (sym e) (sym again) ∙ ok_ in
              (
                allows_session-own sc (named_or_default s (session_of target)) h allowed,
                (
                  ap (λ (n : Text). lookup n s.workers) (sym again) ∙ worker,
                  allows_target-pane sc target h (sym same ∙ a),
                ),
              ))
      | inr a ↦ simp a (unfold IsRoute in (sym same ∙ a))
    ]
