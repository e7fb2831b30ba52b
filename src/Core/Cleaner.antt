-- ===== src/Core/Cleaner.antt =====
-- internal/core/clean.go: a captured screen made readable. The regular expressions are arguments: each
-- pattern is the test whether it matches a line, and `punctuation` counts its matches.
pub mod Lines
pub mod Folds
use herdr_expose.Prelude.{
  ℕ, zero, suc, ◌+◌, ◌-◌, ◌*◌, ◌/◌, ◌%◌, ◌^◌, ◌≤◌, ◌<◌, ◌≡◌, refl, sym, ap, ap₂, subst, ◌∙◌, ◌≢◌,
  ◌↔◌, ◌⊎◌, inl, inr, Bool, true, false, not, ◌&&◌, ◌||◌, Option, none, some, List, [], ◌∷◌, ◌++◌,
  map, append-nil, append_assoc, arith,
}
use herdr_expose.Prelude.Tests.{
  if_split, ltb, leb, ◌==◌, ==_iff, if◌then◌else◌, Bool-cases, Option-cases, is_some, or_zero,
}
use herdr_expose.Prelude.Lists.{All, In, snoc, is_empty, length, take, drop, any_of, keep_if}
use herdr_expose.Prelude.Text.{Text, bytes, text_eq, text_eq_iff, text_eq_refl}
use herdr_expose.Prelude.Map.{
  Map, keys, lookup, insert, delete, lookup-insert, lookup-delete, lookup-insert_self,
  lookup-delete_self, Unique, insert-Unique, delete-Unique,
}
use herdr_expose.Prelude.Text.{split_on, trim_space}
use mathlib.Core.List.{reverse}

pub record CodeShapes : Type 0 where
  pub gutter : Text → Bool
  pub diff : Text → Bool
  pub bare : Text → Bool
  pub shell : Text → Bool
  pub path : Text → Bool
  pub punctuation : Text → ℕ

abbrev pub code_run_min : ℕ
code_run_min = 2

-- `float64(n)/float64(len(t)) > 0.08`.
unfoldable pub is_code_like : CodeShapes → Text → Bool
is_code_like c line =
    let t = trim_space line in
    if is_empty t
    then false
    else if c.gutter line || (c.diff line || (c.bare line || (c.shell line || c.path line)))
    then true
    else leb 8 (length t) && ltb (length t * 8) (c.punctuation t * 100)

-- The patterns of a `Cleaner` that compiled.
abbrev pub Patterns : Type 0
Patterns = List (Text → Bool)

-- `NewCleaner`: what a pattern compiles to, if it does; and those that do not.
unfoldable pub new_cleaner : (Text → Option (Text → Bool)) → List Text → Patterns × List Text
new_cleaner compile [] = ([], [])
new_cleaner compile (p ∷ ps) =
    let (good, bad) = new_cleaner compile ps in
    elim (compile p) [ none ↦ (good, p ∷ bad) | some re ↦ (re ∷ good, bad) ]

abbrev pub is_chrome : Patterns → Text → Bool
is_chrome res line = not (is_empty line) && any_of (λ (re : Text → Bool). re line) res

-- The variables of `clean`.
pub record Cleaning : Type 0 where
  pub out : List Text
  pub chrome : ℕ
  pub blank : ℕ
  pub code : ℕ
  pub blank_run : ℕ
  pub code_run : ℕ
  pub held : List Text

abbrev pub start : Cleaning
start = record { out = []; chrome = 0; blank = 0; code = 0; blank_run = 0; code_run = 0; held = [] }

-- The text of a marker; the decimal digits of a count are the argument `digits`.
abbrev pub marker : (ℕ → Text) → ℕ → Text
marker digits n =
    bytes "[" ++ (digits n ++ (if n == 1 then bytes " line of code]" else bytes " lines of code]"))

unfoldable pub flush_code : (ℕ → Text) → Cleaning → Cleaning
flush_code digits c =
    if c.code_run == 0
    then c
    else if leb code_run_min c.code_run
    then record c {
      code = c.code + c.code_run;
      out = snoc c.out (marker digits c.code_run);
      code_run = 0;
      held = [];
    }
    else record c { out = c.out ++ c.held; code_run = 0; held = [] }

abbrev pub hold : Text → Cleaning → Cleaning
hold line c = record c {
  blank_run = if ltb 0 c.blank_run && ltb 0 c.code_run then 0 else c.blank_run;
  code_run = c.code_run + 1;
  held = snoc c.held line;
}

-- A line that is kept, with the one blank that survives before it.
abbrev pub emit : Text → Cleaning → Cleaning
emit line c =
    if is_empty line
    then record c { blank_run = c.blank_run + 1 }
    else if c.blank_run == 0
    then record c { out = snoc c.out line }
    else if is_empty c.out
    then record c { blank = c.blank + c.blank_run; blank_run = 0; out = snoc c.out line }
    else record c {
      blank = c.blank + (c.blank_run - 1);
      blank_run = 0;
      out = snoc (snoc c.out []) line;
    }

abbrev is_padding : ℕ → Bool
is_padding c = c == 32 || c == 9

abbrev pub drop_padding : Text → Text
drop_padding [] = []
drop_padding (x ∷ xs) = if is_padding x then drop_padding xs else x ∷ xs

-- `strings.TrimRight(raw, " \t")`.
unfoldable pub trim_padding : Text → Text
trim_padding s = reverse (drop_padding (reverse s))

module _ (patterns : Patterns) (shapes : CodeShapes) (digits : ℕ → Text) (drop_code : Bool) where
  -- The body of the loop.
  unfoldable pub clean_line : Text → Cleaning → Cleaning
  unfolding flush_code is_code_like trim_padding
  clean_line raw c =
      let line = trim_padding raw in
      if is_chrome patterns line
      then record c { chrome = c.chrome + 1 }
      else if drop_code
      then if is_code_like shapes line then hold line c else emit line (flush_code digits c)
      else emit line c

  unfoldable pub clean_lines : List Text → Cleaning → Cleaning
  unfolding clean_line
  clean_lines [] c = c
  clean_lines (raw ∷ raws) c = clean_lines raws (clean_line raw c)

  -- The lines of the cleaned text with the counts, the blanks that are left over counted too.
  unfoldable pub clean : Text → Cleaning
  unfolding clean_lines flush_code
  clean text =
      let c = clean_lines (split_on 10 text) start in
      let d = if drop_code then flush_code digits c else c in
      record d { blank = d.blank + d.blank_run }

-- `strings.Join(out, "\n")`.
abbrev pub join_lines : List Text → Text
join_lines [] = []
join_lines (l ∷ []) = l
join_lines (l ∷ m ∷ ls) = l ++ (10 ∷ join_lines (m ∷ ls))
