-- ===== src/Core/Cleaner/Folds.antt =====
-- What folding code into markers, in internal/core/clean.go, leaves of the lines around it.
use herdr_expose.Prelude.{
  ℕ, ◌+◌, sym, ap, subst, ◌∙◌, Bool, true, not, ◌&&◌, List, [], ◌∷◌, ◌++◌, map, append-nil,
}
use herdr_expose.Prelude.Tests.{if_split, leb, ◌==◌, if◌then◌else◌}
use herdr_expose.Prelude.Lists.{snoc, is_empty, keep_if}
use herdr_expose.Prelude.Text.{Text}
use herdr_expose.Prelude.Text.{split_on}
use herdr_expose.Core.Cleaner.{
  CodeShapes, Patterns, Cleaning, is_chrome, is_code_like, hold, flush_code, start, emit, clean,
  clean_line, clean_lines, trim_padding,
}
use herdr_expose.Core.Cleaner.Lines.{
  is_text, is_content, and_false, and_true, content_chrome, content_text, snoc_append,
}

-- The lines of the first list stand in the second, in their order.
pub data Sub : List Text → List Text → Type 0 where
  done : Sub [] []
  keep : {xs ys : List Text} (x : Text) → Sub xs ys → Sub (x ∷ xs) (x ∷ ys)
  skip : {xs ys : List Text} (y : Text) → Sub xs ys → Sub xs (y ∷ ys)

Sub-none : (ys : List Text) → Sub [] ys
Sub-none [] = Sub.done
Sub-none (y ∷ ys) = Sub.skip y (Sub-none ys)

Sub-append :
    {xs ys : List Text} (us vs : List Text) → Sub xs ys → Sub us vs → Sub (xs ++ us) (ys ++ vs)
Sub-append us vs Sub.done k = k
Sub-append us vs (Sub.keep x s) k = Sub.keep x (Sub-append us vs s k)
Sub-append us vs (Sub.skip y s) k = Sub.skip y (Sub-append us vs s k)

Sub-longer : {xs ys : List Text} (vs : List Text) → Sub xs ys → Sub xs (ys ++ vs)
Sub-longer {xs} {ys} vs s =
    subst (λ zs. Sub zs (ys ++ vs)) (append-nil xs) (Sub-append [] vs s (Sub-none vs))

Sub-snoc : {xs ys : List Text} (l : Text) → Sub xs ys → Sub (snoc xs l) (snoc ys l)
Sub-snoc l s = Sub-append (l ∷ []) (l ∷ []) s (Sub.keep l Sub.done)

-- A line that says something, is no furniture and has no shape of code.
abbrev pub is_prose : Patterns → CodeShapes → Text → Bool
is_prose ps cs l = is_content ps l && not (is_code_like cs l)

module _ (patterns : Patterns) (shapes : CodeShapes) (digits : ℕ → Text) where
  flush_code-Sub : {xs : List Text} (c : Cleaning) → Sub xs c.out → Sub xs (flush_code digits c).out
  unfolding flush_code
  flush_code-Sub {xs} c s =
      let P = λ (x : Cleaning). Sub xs x.out in
      if_split P (c.code_run == 0) (λ _. s)
        λ _. if_split P (leb 2 c.code_run) (λ _. Sub-longer _ s) λ _. Sub-longer c.held s

  emit-Sub :
      {xs : List Text} (l : Text) (c : Cleaning)
      → Sub xs c.out
      → Sub (if is_text l then snoc xs l else xs) (emit l c).out
  emit-Sub {xs} l c s =
      let P = λ (x : Cleaning). Sub (if is_text l then snoc xs l else xs) x.out in
      if_split P (is_empty l) (λ t. rw t s)
        λ t. rw t (
          if_split (λ (x : Cleaning). Sub (snoc xs l) x.out) (c.blank_run == 0) (λ _. Sub-snoc l s)
            λ _.
              if_split (λ (x : Cleaning). Sub (snoc xs l) x.out) (is_empty c.out)
                (λ _. Sub-snoc l s) λ _. Sub-snoc l (Sub-longer ([] ∷ []) s))

  clean_line-Sub :
      {xs : List Text} (raw : Text) (c : Cleaning)
      → Sub xs c.out
      → Sub
          (if is_prose patterns shapes (trim_padding raw) then snoc xs (trim_padding raw) else xs)
          (clean_line patterns shapes digits true raw c).out
  unfolding clean_line
  clean_line-Sub {xs} raw c s = by_line (trim_padding raw)
    where
      by_line :
          (l : Text)
          → Sub
              (if is_prose patterns shapes l then snoc xs l else xs)
              (if is_chrome patterns l
                then record c { chrome = c.chrome + 1 }
                else if is_code_like shapes l
                then hold l c
                else emit l (flush_code digits c)).out
      by_line l =
          let Q = λ (b : Bool) (x : Cleaning). Sub (if b then snoc xs l else xs) x.out in
          if_split (Q (is_prose patterns shapes l)) (is_chrome patterns l)
            (λ t.
              subst (λ b. Sub (if b then snoc xs l else xs) c.out)
                (sym (ap (λ b. b && not (is_code_like shapes l)) (content_chrome patterns l t))) s)
            λ t.
              if_split (Q (is_prose patterns shapes l)) (is_code_like shapes l)
                (λ u.
                  subst (λ b. Sub (if b then snoc xs l else xs) c.out)
                    (sym (
                      ap (λ b. is_content patterns l && not b) u
                      ∙ and_false (is_content patterns l)))
                    s)
                λ u.
                  subst (λ b. Sub (if b then snoc xs l else xs) (emit l (flush_code digits c)).out)
                    (sym (
                      ap (λ b. is_content patterns l && not b) u
                      ∙ (and_true (is_content patterns l) ∙ content_text patterns l t)))
                    (emit-Sub l (flush_code digits c) (flush_code-Sub c s))

  clean_lines-Sub :
      (raws xs : List Text) (c : Cleaning)
      → Sub xs c.out
      → Sub
          (xs ++ keep_if (is_prose patterns shapes) (map trim_padding raws))
          (clean_lines patterns shapes digits true raws c).out
  unfolding clean_lines
  clean_lines-Sub [] xs c s = subst (λ zs. Sub zs c.out) (sym (append-nil xs)) s
  clean_lines-Sub (raw ∷ raws) xs c s =
      subst
        (λ zs.
          Sub zs
            (clean_lines patterns shapes digits true raws
              (clean_line patterns shapes digits true raw c)).out)
        (snoc_append (is_prose patterns shapes (trim_padding raw)) (trim_padding raw) xs _)
        (clean_lines-Sub raws _ (clean_line patterns shapes digits true raw c)
          (clean_line-Sub raw c s))

  -- Folding code loses no line of prose, and keeps their order: the lines of the screen that say
  -- something, match no pattern of furniture and have no shape of code stand, in their order, in the
  -- text that `CleanDroppingCode` answers with.
  pub folded-prose :
      (text : Text)
      → Sub
          (keep_if (is_prose patterns shapes) (map trim_padding (split_on 10 text)))
          (clean patterns shapes digits true text).out
  unfolding clean
  folded-prose text =
      flush_code-Sub (clean_lines patterns shapes digits true (split_on 10 text) start)
        (clean_lines-Sub (split_on 10 text) [] start Sub.done)
