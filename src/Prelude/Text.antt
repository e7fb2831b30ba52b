-- ===== src/Prelude/Text.antt =====
-- A Go string as the list of its bytes, with the operations of package strings that the code uses.
use Prim.Native.Nat.{ℕ}
use Prim.Native.Char.{code}
use Prim.Native.String.{String}
use mathlib.Core.Path.{◌≡◌, refl}
use mathlib.Core.Logic.{◌≢◌, ◌↔◌, inl, inr}
use mathlib.Core.Bool.{Bool, true, false, ◌&&◌, ◌||◌}
use mathlib.Core.List.{List, [], ◌∷◌, ◌++◌, reverse}
use native.Mathlib.Omega.{arith}
use herdr_expose.Prelude.Tests.{◌==◌, ltb, if◌then◌else◌, Bool-cases}
use herdr_expose.Prelude.Lists.{any_of, In, any_of-In, In-any_of}

abbrev pub Text : Type 0
Text = List ℕ

-- The bytes of an ASCII literal.
abbrev pub bytes : String → Text
bytes String.[] = []
bytes (String.◌∷◌ c s) = code c ∷ bytes s

-- `a == b` on strings.
unfoldable pub text_eq : Text → Text → Bool
text_eq [] [] = true
text_eq [] (y ∷ ys) = false
text_eq (x ∷ xs) [] = false
text_eq (x ∷ xs) (y ∷ ys) = x == y && text_eq xs ys

text_eq→eq : (a b : Text) → text_eq a b ≡ true → a ≡ b
unfolding text_eq
text_eq→eq [] [] h = refl
text_eq→eq [] (y ∷ ys) h = cc
text_eq→eq (x ∷ xs) [] h = cc
text_eq→eq (x ∷ xs) (y ∷ ys) h = ground (arith, text_eq→eq xs ys)

pub text_eq_refl : (a : Text) → text_eq a a ≡ true
unfolding text_eq
text_eq_refl [] = refl
text_eq_refl (x ∷ xs) = ground (arith, text_eq_refl xs)

pub text_eq_iff : (a b : Text) → (text_eq a b ≡ true) ↔ (a ≡ b)
text_eq_iff a b = (text_eq→eq a b, λ e. rw e (text_eq_refl b))

pub text_eq_ne : (a b : Text) → a ≢ b → text_eq a b ≡ false
text_eq_ne a b h = elim (Bool-cases (text_eq a b)) [
  | inl e ↦ absurd (h ((text_eq_iff a b).0 e))
  | inr e ↦ e
]

-- `strings.HasPrefix(s, p)` and what follows the prefix.
unfoldable pub has_prefix : Text → Text → Bool
has_prefix s [] = true
has_prefix [] (y ∷ ys) = false
has_prefix (x ∷ xs) (y ∷ ys) = x == y && has_prefix xs ys

pub has_prefix-append : (p s : Text) → has_prefix (p ++ s) p ≡ true
unfolding has_prefix
has_prefix-append [] s = refl
has_prefix-append (x ∷ p) s = ground (arith, has_prefix-append p s)

-- `strings.Contains(s, p)`.
unfoldable pub contains : Text → Text → Bool
unfolding has_prefix
contains [] p = has_prefix [] p
contains (x ∷ xs) p = if has_prefix (x ∷ xs) p then true else contains xs p

-- `s[i]` is not among the bytes.
abbrev pub Lacks : ℕ → Text → Type 0
Lacks c [] = Unit {0}
Lacks c (x ∷ xs) = ((x == c) ≡ false) × Lacks c xs

-- ASCII white space, as `strings.TrimSpace` trims it.
abbrev pub is_space : ℕ → Bool
is_space c = c == 32 || (c == 9 || (c == 10 || (c == 11 || (c == 12 || c == 13))))

abbrev pub trim_left : Text → Text
trim_left [] = []
trim_left (x ∷ xs) = if is_space x then trim_left xs else x ∷ xs

-- `strings.TrimSpace(s)`.
unfoldable pub trim_space : Text → Text
trim_space s = reverse (trim_left (reverse (trim_left s)))

abbrev onto_first : ℕ → List Text → List Text
onto_first x [] = (x ∷ []) ∷ []
onto_first x (p ∷ ps) = (x ∷ p) ∷ ps

-- `strings.Split(s, sep)` for a separator of one byte: never the empty list.
unfoldable pub split_on : ℕ → Text → List Text
split_on sep [] = [] ∷ []
split_on sep (x ∷ xs) = if x == sep then [] ∷ split_on sep xs else onto_first x (split_on sep xs)

-- Byte-wise order of strings, as Go's `<=` has it.
unfoldable pub text_le : Text → Text → Bool
text_le [] t = true
text_le (x ∷ xs) [] = false
text_le (x ∷ xs) (y ∷ ys) = if ltb x y then true else x == y && text_le xs ys

abbrev insert_text : Text → List Text → List Text
insert_text t [] = t ∷ []
insert_text t (u ∷ us) = if text_le t u then t ∷ u ∷ us else u ∷ insert_text t us

-- `sort.Strings`.
unfoldable pub sort_texts : List Text → List Text
sort_texts [] = []
sort_texts (t ∷ ts) = insert_text t (sort_texts ts)

insert_text-In : (x t : Text) (us : List Text) → In x (insert_text t us) → In x (t ∷ us)
insert_text-In x t [] h = h
insert_text-In x t (u ∷ us) h = elim (Bool-cases (text_le t u)) [
  | inl e ↦ rw e at h
  | inr e ↦
      let k : In x (u ∷ insert_text t us) = rw e at h in
      elim k [
        | inl q ↦ inr (inl q)
        | inr q ↦ elim (insert_text-In x t us q) [ inl r ↦ inl r | inr r ↦ inr (inr r) ]
      ]
]

In-insert_text : (x t : Text) (us : List Text) → In x (t ∷ us) → In x (insert_text t us)
In-insert_text x t [] h = h
In-insert_text x t (u ∷ us) h = elim (Bool-cases (text_le t u)) [
  | inl e ↦ rw e h
  | inr e ↦ rw e (elim h [
    | inl q ↦ inr (In-insert_text x t us (inl q))
    | inr (inl q) ↦ inl q
    | inr (inr q) ↦ inr (In-insert_text x t us (inr q))
  ])
]

pub sort_texts-In : (x : Text) (ts : List Text) → In x (sort_texts ts) → In x ts
unfolding sort_texts
sort_texts-In x [] h = h
sort_texts-In x (t ∷ ts) h = elim (insert_text-In x t (sort_texts ts) h) [
  | inl q ↦ inl q
  | inr q ↦ inr (sort_texts-In x ts q)
]

pub In-sort_texts : (x : Text) (ts : List Text) → In x ts → In x (sort_texts ts)
unfolding sort_texts
In-sort_texts x [] h = h
In-sort_texts x (t ∷ ts) h =
    In-insert_text x t (sort_texts ts)
      (elim h [ inl q ↦ inl q | inr q ↦ inr (In-sort_texts x ts q) ])

-- Whether a text stands in a list.
unfoldable pub member : Text → List Text → Bool
member t ts = any_of (text_eq t) ts

pub member-In : (t : Text) (ts : List Text) → member t ts ≡ true → In t ts
unfolding member
member-In t ts h =
    let (u, i, e) = any_of-In (text_eq t) ts h in let q : t ≡ u = (text_eq_iff t u).0 e in rw q i

pub In-member : (t : Text) (ts : List Text) → In t ts → member t ts ≡ true
unfolding member
In-member t ts h = In-any_of (text_eq t) t ts h (text_eq_refl t)

pub text_ne : (a b : Text) → text_eq a b ≡ false → a ≢ b
text_ne a b h e = cc (h, (text_eq_iff a b).1 e)
