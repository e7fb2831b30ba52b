-- ===== src/Core/Cleaner/Lines.antt =====
-- What `Clean` of internal/core/clean.go keeps of a screen, and that it accounts for the rest.
use herdr_expose.Prelude.{
  ℕ, ◌+◌, ◌≡◌, refl, sym, ap, ◌∙◌, ◌≢◌, inl, inr, Bool, true, false, not, ◌&&◌, List, [], ◌∷◌, ◌++◌,
  map, append-nil, append_assoc, arith,
}
use herdr_expose.Prelude.Tests.{if_split, ◌==◌, if◌then◌else◌, Bool-cases}
use herdr_expose.Prelude.Lists.{snoc, is_empty, length, keep_if}
use herdr_expose.Prelude.Text.{Text}
use herdr_expose.Prelude.Text.{split_on}
use herdr_expose.Prelude.Lists.{length-append}
use herdr_expose.Core.Cleaner.{
  CodeShapes, Patterns, Cleaning, is_chrome, start, emit, clean, clean_line, clean_lines,
  trim_padding,
}

-- A line with something on it.
abbrev pub is_text : Text → Bool
is_text l = not (is_empty l)

-- A line that says something and is no furniture.
abbrev pub is_content : Patterns → Text → Bool
is_content ps l = is_text l && not (is_chrome ps l)

if_ap {ℓ κ} :
    {A : Type ℓ} {B : Type κ} (b : Bool) (f : A → B) (x y : A)
    → f (if b then x else y) ≡ (if b then f x else f y)
if_ap true f x y = refl
if_ap false f x y = refl

keep_if-snoc :
    (l : Text) (ls : List Text)
    → keep_if is_text (snoc ls l)
      ≡ (if is_text l then snoc (keep_if is_text ls) l else keep_if is_text ls)
keep_if-snoc l [] = ground arith
keep_if-snoc l (m ∷ ls) = elim (Bool-cases (is_text m)) [
  | inl t ↦ rw (t, keep_if-snoc l ls) (if_ap (is_text l) (◌∷◌ m) _ _)
  | inr t ↦ rw t (keep_if-snoc l ls)
]

pub and_false : (b : Bool) → (b && false) ≡ false
and_false true = refl
and_false false = refl

pub and_true : (b : Bool) → (b && true) ≡ b
and_true true = refl
and_true false = refl

pub content_chrome : (ps : Patterns) (l : Text) → is_chrome ps l ≡ true → is_content ps l ≡ false
content_chrome ps l t = ap (λ b. is_text l && not b) t ∙ and_false (is_text l)

pub content_text : (ps : Patterns) (l : Text) → is_chrome ps l ≡ false → is_content ps l ≡ is_text l
content_text ps l t = ap (λ b. is_text l && not b) t ∙ and_true (is_text l)

pub snoc_append :
    (b : Bool) (l : Text) (xs ys : List Text)
    → (if b then snoc xs l else xs) ++ ys ≡ xs ++ (if b then l ∷ ys else ys)
snoc_append true l xs ys = append_assoc xs (l ∷ []) ys
snoc_append false l xs ys = refl

module _ (patterns : Patterns) (shapes : CodeShapes) (digits : ℕ → Text) where
  -- The lines that `clean_lines` has dealt with: those it put out, and those it counted.
  abbrev dealt : Cleaning → ℕ
  dealt c = length c.out + c.chrome + c.blank + c.blank_run

  dealt-emit : (line : Text) (c : Cleaning) → dealt (emit line c) ≡ dealt c + 1
  dealt-emit line c =
      let P = λ (x : Cleaning). dealt x ≡ dealt c + 1 in
      if_split P (is_empty line) (λ _. omega arith)
        λ _.
          if_split P (c.blank_run == 0) (λ _. omega (arith, length-append c.out (line ∷ [])))
            λ t.
              if_split P (is_empty c.out) (λ _. omega (arith, length-append c.out (line ∷ [])))
                λ _.
                  let some_run : c.blank_run ≢ 0 = ground (arith, t) in
                  omega (
                    arith,
                    some_run,
                    length-append c.out ([] ∷ []),
                    length-append (snoc c.out []) (line ∷ []),
                  )

  dealt-clean_line :
      (raw : Text) (c : Cleaning)
      → dealt (clean_line patterns shapes digits false raw c) ≡ dealt c + 1
  unfolding clean_line
  dealt-clean_line raw c =
      if_split (λ (x : Cleaning). dealt x ≡ dealt c + 1) (is_chrome patterns (trim_padding raw))
        (λ _. omega arith) λ _. dealt-emit (trim_padding raw) c

  dealt-clean_lines :
      (raws : List Text) (c : Cleaning)
      → dealt (clean_lines patterns shapes digits false raws c) ≡ dealt c + length raws
  unfolding clean_lines
  dealt-clean_lines [] c = omega arith
  dealt-clean_lines (raw ∷ raws) c = omega (
    arith,
    dealt-clean_lines raws (clean_line patterns shapes digits false raw c),
    dealt-clean_line raw c,
  )

  clean_accounts :
      (text : Text)
      → length (clean patterns shapes digits false text).out
          + (clean patterns shapes digits false text).chrome
          + (clean patterns shapes digits false text).blank
        ≡ length (split_on 10 text)
  unfolding clean
  clean_accounts text = omega (arith, dealt-clean_lines (split_on 10 text) start)

  abbrev said : Cleaning → List Text
  said c = keep_if is_text c.out

  said-emit :
      (line : Text) (c : Cleaning)
      → said (emit line c) ≡ (if is_text line then snoc (said c) line else said c)
  said-emit line c =
      let P = λ (x : Cleaning). said x ≡ (if is_text line then snoc (said c) line else said c) in
      if_split P (is_empty line) (λ t. rw t refl)
        λ t.
          if_split P (c.blank_run == 0) (λ _. keep_if-snoc line c.out)
            λ _.
              if_split P (is_empty c.out) (λ _. keep_if-snoc line c.out)
                λ _. rw (keep_if-snoc line (snoc c.out []), keep_if-snoc [] c.out) refl

  said-clean_line :
      (raw : Text) (c : Cleaning)
      → said (clean_line patterns shapes digits false raw c) ≡ (
          if is_content patterns (trim_padding raw)
          then snoc (said c) (trim_padding raw)
          else said c)
  unfolding clean_line
  said-clean_line raw c =
      let l = trim_padding raw in
      let P =
        λ (x : Cleaning). said x ≡ (if is_content patterns l then snoc (said c) l else said c) in
      if_split P (is_chrome patterns l)
        (λ t. ap (λ b. if b then snoc (said c) l else said c) (sym (content_chrome patterns l t)))
        λ t.
          said-emit l c
          ∙ ap (λ b. if b then snoc (said c) l else said c) (sym (content_text patterns l t))

  said-clean_lines :
      (raws : List Text) (c : Cleaning)
      → said (clean_lines patterns shapes digits false raws c)
        ≡ said c ++ keep_if (is_content patterns) (map trim_padding raws)
  unfolding clean_lines
  said-clean_lines [] c = sym (append-nil (said c))
  said-clean_lines (raw ∷ raws) c =
      said-clean_lines raws (clean_line patterns shapes digits false raw c)
      ∙ (ap (λ xs. xs ++ keep_if (is_content patterns) (map trim_padding raws))
            (said-clean_line raw c)
          ∙ snoc_append (is_content patterns (trim_padding raw)) (trim_padding raw) (said c) _)

  clean_content :
      (text : Text)
      → keep_if is_text (clean patterns shapes digits false text).out
        ≡ keep_if (is_content patterns) (map trim_padding (split_on 10 text))
  unfolding clean
  clean_content text = said-clean_lines (split_on 10 text) start

  -- Apart from blanks, the text that `Clean` answers with is just the lines of the screen that say
  -- something and match no pattern of furniture, in their order, each as it was but for the white space
  -- that it ended in. And every line of the screen is a line of that text, or is counted as furniture or
  -- as a blank.
  pub clean_faithful :
      (text : Text)
      → (keep_if is_text (clean patterns shapes digits false text).out
          ≡ keep_if (is_content patterns) (map trim_padding (split_on 10 text)))
        × (length (clean patterns shapes digits false text).out
              + (clean patterns shapes digits false text).chrome
              + (clean patterns shapes digits false text).blank
            ≡ length (split_on 10 text))
  clean_faithful text = (clean_content text, clean_accounts text)
