-- ===== src/Core/Ansi.antt =====
-- internal/core/ansi.go: terminal escape sequences. The index into the string is the rest of the
-- string from it on.
pub mod Clean
pub mod Pieces
use herdr_expose.Prelude.Lists.{length, drop, any_of}
use herdr_expose.Prelude.{
  ℕ, zero, suc, ◌+◌, ◌-◌, ◌*◌, ◌/◌, ◌%◌, ◌^◌, ◌≤◌, ◌<◌, ◌≡◌, refl, sym, ap, ap₂, subst, ◌∙◌, ◌≢◌,
  ◌↔◌, ◌⊎◌, inl, inr, Bool, true, false, not, ◌&&◌, ◌||◌, Option, none, some, List, [], ◌∷◌, ◌++◌,
  map, append-nil, append_assoc, arith,
}
use herdr_expose.Prelude.Tests.{ltb, leb, ◌==◌, ==_iff, if◌then◌else◌, Bool-cases, Option-cases}
use herdr_expose.Prelude.Text.{Text}

unfoldable pub esc_params : Text → Text
esc_params [] = []
esc_params (x ∷ xs) = if leb 32 x && leb x 63 then esc_params xs else x ∷ xs

-- Runs to BEL or to ST, which is ESC and a backslash.
unfoldable pub esc_string : Text → Text
esc_string [] = []
esc_string (x ∷ []) = []
esc_string (x ∷ y ∷ xs) =
    if x == 7 then y ∷ xs else if x == 27 && y == 92 then xs else esc_string (y ∷ xs)

abbrev pub is_string_start : ℕ → Bool
is_string_start c = c == b']' || (c == b'P' || (c == b'X' || (c == b'^' || c == b'_')))

abbrev pub is_charset : ℕ → Bool
is_charset c = c == b'(' || (c == b')' || (c == b'*' || (c == b'+' || (c == b'%' || c == b'#'))))

-- The rest of the string past the escape sequence, from the byte after its ESC.
unfoldable pub skip_escape : Text → Text
unfolding esc_params esc_string
skip_escape [] = []
skip_escape (c ∷ s) =
    if c == b'['
    then drop 1 (esc_params s)
    else if is_string_start c
    then esc_string s
    else if is_charset c
    then drop 1 s
    else s

-- The bytes that `ContainsAny` asks for.
abbrev pub is_control : ℕ → Bool
is_control c = c == 27 || (c == 13 || c == 7)

unfoldable pub strip_loop : ℕ → Text → Text
unfolding skip_escape
strip_loop zero s = []
strip_loop (suc fuel) [] = []
strip_loop (suc fuel) (c ∷ s) =
    let rest = strip_loop fuel (if c == 27 then skip_escape s else s) in
    if is_control c then rest else c ∷ rest

unfoldable pub strip_ansi : Text → Text
unfolding strip_loop
strip_ansi s = if any_of is_control s then strip_loop (length s) s else s
