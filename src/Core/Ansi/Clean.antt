-- ===== src/Core/Ansi/Clean.antt =====
-- What `StripANSI` of internal/core/ansi.go leaves of a text.
use herdr_expose.Prelude.Lists.{length-drop, length-append, length, any_of}
use herdr_expose.Core.Ansi.{is_control, skip_escape, esc_string, esc_params, strip_loop, strip_ansi}
use herdr_expose.Prelude.{
  ℕ, zero, suc, ◌+◌, ◌≤◌, ◌≡◌, refl, sym, ◌∙◌, inl, inr, false, not, ◌&&◌, [], ◌∷◌, ◌++◌, arith,
}
use herdr_expose.Prelude.Tests.{leb, ◌==◌, Bool-cases, if◌then◌else◌}
use herdr_expose.Prelude.Text.{Text}

esc_params-le : (s : Text) → length (esc_params s) ≤ length s
unfolding esc_params
esc_params-le [] = omega arith
esc_params-le (x ∷ xs) = ground (arith, esc_params-le xs)

esc_string-le : (s : Text) → length (esc_string s) ≤ length s
unfolding esc_string
esc_string-le [] = omega arith
esc_string-le (x ∷ []) = omega arith
esc_string-le (x ∷ y ∷ xs) = ground (arith, esc_string-le (y ∷ xs))

skip_escape-le : (s : Text) → length (skip_escape s) ≤ length s
unfolding skip_escape
skip_escape-le [] = omega arith
skip_escape-le (c ∷ s) =
    ground (arith, esc_params-le s, esc_string-le s, length-drop 1 (esc_params s), length-drop 1 s)

-- No byte of the text is an ESC, a CR or a BEL.
pub IsClean : Text → Type 0
IsClean s = any_of is_control s ≡ false

strip_loop-IsClean : (fuel : ℕ) (s : Text) → IsClean (strip_loop fuel s)
unfolding strip_loop IsClean
strip_loop-IsClean zero s = refl
strip_loop-IsClean (suc fuel) [] = refl
strip_loop-IsClean (suc fuel) (c ∷ s) =
    ground (arith, strip_loop-IsClean fuel s, strip_loop-IsClean fuel (skip_escape s))

-- Fuel: as much as the text is long is enough, and more changes nothing.
strip_loop-fuel :
    (fuel more : ℕ) (s : Text)
    → length s ≤ fuel
    → length s ≤ more
    → strip_loop fuel s ≡ strip_loop more s
unfolding strip_loop
strip_loop-fuel zero zero s h k = refl
strip_loop-fuel zero (suc more) [] h k = refl
strip_loop-fuel zero (suc more) (c ∷ s) h k = absurd (omega arith)
strip_loop-fuel (suc fuel) zero [] h k = refl
strip_loop-fuel (suc fuel) zero (c ∷ s) h k = absurd (omega arith)
strip_loop-fuel (suc fuel) (suc more) [] h k = refl
strip_loop-fuel (suc fuel) (suc more) (c ∷ s) h k =
    let le = skip_escape-le s in
    let a = strip_loop-fuel fuel more s (omega arith) (omega arith) in
    let b = strip_loop-fuel fuel more (skip_escape s) (omega arith) (omega arith) in
    ground (arith, a, b)

strip_loop-clean_prefix :
    (p s : Text)
    → IsClean p
    → strip_loop (length p + length s) (p ++ s) ≡ p ++ strip_loop (length s) s
unfolding strip_loop IsClean
strip_loop-clean_prefix [] s h = let e : 0 + length s ≡ length s = omega arith in rw e refl
strip_loop-clean_prefix (c ∷ p) s h =
    let e : length (c ∷ p) + length s ≡ suc (length p + length s) = omega arith in
    let not_control : is_control c ≡ false = ground arith in
    let not_esc : (c == 27) ≡ false = ground arith in
    let tail_clean : IsClean p = ground arith in
    rw (e, strip_loop, not_control, not_esc, strip_loop-clean_prefix p s tail_clean) refl

strip_loop-clean : (s : Text) → IsClean s → strip_loop (length s) s ≡ s
unfolding strip_loop IsClean
strip_loop-clean [] h = refl
strip_loop-clean (c ∷ s) h =
    let not_control : is_control c ≡ false = ground arith in
    let not_esc : (c == 27) ≡ false = ground arith in
    let tail_clean : IsClean s = ground arith in
    rw (not_control, not_esc, strip_loop-clean s tail_clean) refl

strip_ansi-loop : (s : Text) → strip_ansi s ≡ strip_loop (length s) s
unfolding strip_ansi
strip_ansi-loop s = elim (Bool-cases (any_of is_control s)) [
  | inl e ↦ rw (e, strip_ansi) refl
  | inr e ↦ rw (e, strip_ansi) (sym (strip_loop-clean s (unfold IsClean in e)))
]

-- What is left of a text has no ESC, no CR and no BEL, whatever bytes it had, and a second strip
-- changes nothing.
strip_ansi-IsClean :
    (s : Text) → IsClean (strip_ansi s) × (strip_ansi (strip_ansi s) ≡ strip_ansi s)
strip_ansi-IsClean s =
    let clean : IsClean (strip_ansi s) = rw (strip_ansi-loop s) (strip_loop-IsClean (length s) s) in
    (clean, strip_ansi-loop (strip_ansi s) ∙ strip_loop-clean (strip_ansi s) clean)

-- Text before the first control byte is kept byte for byte, and what follows it is stripped as it
-- would be alone.
pub strip_ansi-append : (p s : Text) → IsClean p → strip_ansi (p ++ s) ≡ p ++ strip_ansi s
strip_ansi-append p s h =
    rw (strip_ansi-loop (p ++ s), strip_ansi-loop s, length-append p s)
      (strip_loop-clean_prefix p s h)

pub esc_params-run :
    (params rest : Text) (final : ℕ)
    → any_of (λ (x : ℕ). not (leb 32 x && leb x 63)) params ≡ false
    → (leb 32 final && leb final 63) ≡ false
    → esc_params (params ++ (final ∷ rest)) ≡ final ∷ rest
unfolding esc_params
esc_params-run [] rest final h k = rw k refl
esc_params-run (x ∷ params) rest final h k = ground (arith, esc_params-run params rest final)

-- What follows an ESC is stripped past its sequence.
pub strip_ansi_escape : (s : Text) → strip_ansi (27 ∷ s) ≡ strip_ansi (skip_escape s)
unfolding strip_loop
strip_ansi_escape s =
    rw (strip_ansi-loop (27 ∷ s), strip_ansi-loop (skip_escape s), strip_loop)
      (strip_loop-fuel (length s) (length (skip_escape s)) (skip_escape s) (skip_escape-le s)
        (omega arith))

-- Any other byte stands for itself, or is a control byte.
pub strip_ansi_byte :
    (c : ℕ) (s : Text)
    → (c == 27) ≡ false
    → strip_ansi (c ∷ s) ≡ (if is_control c then strip_ansi s else c ∷ strip_ansi s)
unfolding strip_loop
strip_ansi_byte c s h = rw (strip_ansi-loop (c ∷ s), strip_ansi-loop s, strip_loop, h) refl
