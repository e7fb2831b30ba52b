-- ===== src/Prelude/Map.antt =====
-- A Go map with string keys, as an association list. A key is stored once: `insert` overwrites in
-- place, and `delete` removes every entry of the key.
use mathlib.Core.Bool.{false}
use Prim.Native.Nat.{◌+◌, ℕ}
use mathlib.Core.Logic.{inl, inr}
use mathlib.Core.Path.{◌≡◌, refl, subst}
use mathlib.Core.Option.{Option, none, some}
use mathlib.Core.List.{List, [], ◌∷◌}
use native.Mathlib.Omega.{arith}
use herdr_expose.Prelude.Tests.{if_split, Bool-cases, is_some, if◌then◌else◌}
use herdr_expose.Prelude.Text.{Text, text_eq, text_eq_iff, text_eq_refl}

abbrev pub Map {ℓ} : Type ℓ → Type ℓ
Map V = List (Text × V)

abbrev pub keys {ℓ} : {V : Type ℓ} → Map V → List Text
keys [] = []
keys ((k, v) ∷ m) = k ∷ keys m

module _ {ℓ} {V : Type ℓ} where
  unfoldable pub lookup : Text → Map V → Option V
  lookup k [] = none
  lookup k ((j, v) ∷ m) = if text_eq j k then some v else lookup k m

  unfoldable pub insert : Text → V → Map V → Map V
  insert k v [] = (k, v) ∷ []
  insert k v ((j, w) ∷ m) = if text_eq j k then (k, v) ∷ m else (j, w) ∷ insert k v m

  unfoldable pub delete : Text → Map V → Map V
  delete k [] = []
  delete k ((j, w) ∷ m) = if text_eq j k then delete k m else (j, w) ∷ delete k m

  pub lookup-insert :
      (k j : Text) (v : V) (m : Map V)
      → lookup j (insert k v m) ≡ (if text_eq k j then some v else lookup j m)
  unfolding lookup insert
  lookup-insert k j v [] = refl
  lookup-insert k j v ((i, w) ∷ m) =
      ground (arith, text_eq_iff k j, text_eq_iff i k, text_eq_iff i j, lookup-insert k j v m)

  pub lookup-delete :
      (k j : Text) (m : Map V) → lookup j (delete k m) ≡ (if text_eq k j then none else lookup j m)
  unfolding lookup delete
  lookup-delete k j [] = ground arith
  lookup-delete k j ((i, w) ∷ m) =
      ground (arith, text_eq_iff k j, text_eq_iff i k, text_eq_iff i j, lookup-delete k j m)

  pub lookup-insert_self : (k : Text) (v : V) (m : Map V) → lookup k (insert k v m) ≡ some v
  lookup-insert_self k v m = simp (lookup-insert, text_eq_refl)

  pub lookup-delete_self : (k : Text) (m : Map V) → lookup k (delete k m) ≡ none
  lookup-delete_self k m = simp (lookup-delete, text_eq_refl)

  -- Each key is stored once.
  abbrev pub Unique : Map V → Type 0
  Unique [] = Unit {0}
  Unique ((k, v) ∷ m) = (is_some (lookup k m) ≡ false) × Unique m

  pub insert-Unique : (k : Text) (v : V) (m : Map V) → Unique m → Unique (insert k v m)
  unfolding insert lookup
  insert-Unique k v [] h = (refl, tt)
  insert-Unique k v ((i, w) ∷ m) h =
      ground
        (arith, text_eq_iff i k, text_eq_iff k i, lookup-insert k i v m, insert-Unique k v m h.1)

  pub delete-Unique : (k : Text) (m : Map V) → Unique m → Unique (delete k m)
  unfolding delete
  delete-Unique k [] h = tt
  delete-Unique k ((i, w) ∷ m) h =
      ground (arith, text_eq_iff i k, text_eq_iff k i, lookup-delete k i m, delete-Unique k m h.1)

  -- The sum of a measure over the values.
  unfoldable pub total : (V → ℕ) → Map V → ℕ
  total f [] = 0
  total f ((k, v) ∷ m) = f v + total f m

  abbrev pub at : (V → ℕ) → Option V → ℕ
  at f none = 0
  at f (some v) = f v

  pub total-insert :
      (f : V → ℕ) (k : Text) (v : V) (m : Map V)
      → total f (insert k v m) + at f (lookup k m) ≡ total f m + f v
  unfolding total insert lookup
  total-insert f k v [] = omega arith
  total-insert f k v ((i, w) ∷ m) = ground (arith, total-insert f k v m)

  delete_absent : (k : Text) (m : Map V) → is_some (lookup k m) ≡ false → delete k m ≡ m
  unfolding delete lookup
  delete_absent k [] h = refl
  delete_absent k ((i, w) ∷ m) h = ground (arith, delete_absent k m)

  pub total-delete :
      (f : V → ℕ) (k : Text) (m : Map V)
      → Unique m
      → total f (delete k m) + at f (lookup k m) ≡ total f m
  unfolding total delete lookup
  total-delete f k [] h = omega arith
  total-delete f k ((i, w) ∷ m) h =
      ground (arith, total-delete f k m h.1, text_eq_iff i k, delete_absent k m)

  lookup_first : (i : Text) (w : V) (m : Map V) → lookup i ((i, w) ∷ m) ≡ some w
  unfolding lookup
  lookup_first i w m = rw (text_eq_refl i)

  lookup_later :
      (i k : Text) (w v : V) (m : Map V)
      → is_some (lookup i m) ≡ false
      → lookup k m ≡ some v
      → lookup k ((i, w) ∷ m) ≡ some v
  lookup_later i k w v m u e = elim (Bool-cases (text_eq i k)) [
    | inl t ↦ absurd (ground (arith, text_eq_iff i k))
    | inr t ↦ unfold lookup in rw t e
  ]

  -- A measure that is nought at each stored value sums up to nought.
  pub total_zero :
      (f : V → ℕ) (m : Map V)
      → Unique m
      → ((k : Text) (v : V) → lookup k m ≡ some v → f v ≡ 0)
      → total f m ≡ 0
  unfolding total
  total_zero f [] u h = refl
  total_zero f ((i, w) ∷ m) u h = omega (
    arith,
    h i w (lookup_first i w m),
    total_zero f m u.1 (λ k v e. h k v (lookup_later i k w v m u.0 e)),
  )

module _ {ℓ κ} {V : Type ℓ} (P : V → Type κ) where
  -- Every value of the map has the property.
  abbrev pub Each : Map V → Type κ
  Each [] = Unit
  Each ((k, v) ∷ m) = P v × Each m

  pub insert-Each : (k : Text) (v : V) (m : Map V) → P v → Each m → Each (insert k v m)
  unfolding insert
  insert-Each k v [] h a = (h, tt)
  insert-Each k v ((j, w) ∷ m) h (b, a) =
      if_split Each (text_eq j k) (λ _. (h, a)) λ _. (b, insert-Each k v m h a)

  pub delete-Each : (k : Text) (m : Map V) → Each m → Each (delete k m)
  unfolding delete
  delete-Each k [] a = tt
  delete-Each k ((j, w) ∷ m) (b, a) =
      if_split Each (text_eq j k) (λ _. delete-Each k m a) λ _. (b, delete-Each k m a)

  pub lookup-Each : (k : Text) (v : V) (m : Map V) → lookup k m ≡ some v → Each m → P v
  unfolding lookup
  lookup-Each k v [] h a = absurd (cc (h))
  lookup-Each k v ((j, w) ∷ m) h (b, a) = elim (Bool-cases (text_eq j k)) [
    | inl t ↦ let e : some w ≡ some v = rw t at h in let same : w ≡ v = cc (e) in subst P same b
    | inr t ↦ lookup-Each k v m (rw t at h) a
  ]
