-- ===== src/Core/Target.antt =====
-- internal/core/target.go: the session-qualified target `<session>/<id>` of the wire.
pub mod Laws
use herdr_expose.Prelude.{
  ℕ, ◌+◌, ◌&&◌, ◌||◌, ◌++◌, Bool, true, false, not, Option, none, some, List, [], ◌∷◌,
}
use herdr_expose.Prelude.Tests.{◌==◌, if◌then◌else◌}
use herdr_expose.Prelude.Lists.{length, drop, is_empty}
use herdr_expose.Prelude.Text.{Text, bytes, has_prefix}

abbrev pub target_sep : ℕ
target_sep = b'/'

abbrev pub before : ℕ → Option (Text × Text) → Option (Text × Text)
before x none = none
before x (some (l, r)) = some (x ∷ l, r)

-- What `strings.Index(target, TargetSep)` with the two slices gives: the parts around the first
-- separator.
unfoldable pub cut : ℕ → Text → Option (Text × Text)
cut sep [] = none
cut sep (x ∷ xs) = if x == sep then some ([], xs) else before x (cut sep xs)

unfoldable pub split_target : Text → Text × Text
split_target target = elim (cut target_sep target) [ none ↦ ([], target) | some p ↦ p ]

unfoldable pub join_target : Text → Text → Text
join_target session id =
    if is_empty session || is_empty id then id else session ++ (target_sep ∷ id)

unfoldable pub session_of : Text → Text
session_of target = (split_target target).0

unfoldable pub id_of : Text → Text
id_of target = (split_target target).1

unfoldable pub strip_session : Text → Text → Text
strip_session session value =
    if not (is_empty session) && has_prefix value (session ++ (target_sep ∷ []))
    then drop (length session + 1) value
    else value
