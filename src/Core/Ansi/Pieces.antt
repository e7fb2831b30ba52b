-- ===== src/Core/Ansi/Pieces.antt =====
-- Which bytes of a terminal's output `StripANSI` of internal/core/ansi.go takes for text.
use herdr_expose.Prelude.Lists.{All, any_of}
use herdr_expose.Prelude.{
  ℕ, ◌≡◌, refl, ◌∙◌, Bool, true, false, not, ◌&&◌, ◌||◌, List, [], ◌∷◌, ◌++◌, arith,
}
use herdr_expose.Prelude.Tests.{leb, ◌==◌, if◌then◌else◌}
use herdr_expose.Prelude.Text.{Text}
use herdr_expose.Core.Ansi.{
  is_control, is_string_start, is_charset, skip_escape, esc_string, strip_ansi,
}
use herdr_expose.Core.Ansi.Clean.{strip_ansi_escape, strip_ansi_byte, esc_params-run}

-- What a terminal writes: bytes, control sequences (parameters and a final byte), strings that end
-- with BEL or with ST, choices of a character set, and escapes of one byte.
pub data Piece : Type 0 where
  byte : ℕ → Piece
  control : Text → ℕ → Piece
  string_bel : ℕ → Text → Piece
  string_st : ℕ → Text → Piece
  charset : ℕ → ℕ → Piece
  short : ℕ → Piece

-- A piece and the text after it.
abbrev pub emitted : Piece → Text → Text
emitted (Piece.byte c) rest = c ∷ rest
emitted (Piece.control params final) rest = 27 ∷ b'[' ∷ (params ++ (final ∷ rest))
emitted (Piece.string_bel c s) rest = 27 ∷ c ∷ (s ++ (7 ∷ rest))
emitted (Piece.string_st c s) rest = 27 ∷ c ∷ (s ++ (27 ∷ 92 ∷ rest))
emitted (Piece.charset c x) rest = 27 ∷ c ∷ x ∷ rest
emitted (Piece.short c) rest = 27 ∷ c ∷ rest

abbrev pub is_param : ℕ → Bool
is_param x = leb 32 x && leb x 63

abbrev pub is_end : ℕ → Bool
is_end x = x == 7 || x == 27

abbrev pub WellFormed : Piece → Type 0
WellFormed (Piece.byte c) = (c == 27) ≡ false
WellFormed (Piece.control params final) =
    (any_of (λ (x : ℕ). not (is_param x)) params ≡ false) × (is_param final ≡ false)
WellFormed (Piece.string_bel c s) = (is_string_start c ≡ true) × (any_of is_end s ≡ false)
WellFormed (Piece.string_st c s) = (is_string_start c ≡ true) × (any_of is_end s ≡ false)
WellFormed (Piece.charset c x) = is_charset c ≡ true
WellFormed (Piece.short c) = (c == b'[' || (is_string_start c || is_charset c)) ≡ false

-- The text of a piece, and the text after it: a byte, but for CR and BEL.
abbrev pub seen : Piece → Text → Text
seen (Piece.byte c) rest = if is_control c then rest else c ∷ rest
seen _ rest = rest

abbrev pub emitted_all : List Piece → Text
emitted_all [] = []
emitted_all (p ∷ ps) = emitted p (emitted_all ps)

abbrev pub seen_all : List Piece → Text
seen_all [] = []
seen_all (p ∷ ps) = seen p (seen_all ps)

esc_string-bel : (s rest : Text) → any_of is_end s ≡ false → esc_string (s ++ (7 ∷ rest)) ≡ rest
unfolding esc_string
esc_string-bel [] [] h = refl
esc_string-bel [] (y ∷ rest) h = refl
esc_string-bel (x ∷ []) rest h = ground (arith, esc_string-bel [] rest refl)
esc_string-bel (x ∷ y ∷ s) rest h = ground (arith, esc_string-bel (y ∷ s) rest)

esc_string-st :
    (s rest : Text) → any_of is_end s ≡ false → esc_string (s ++ (27 ∷ 92 ∷ rest)) ≡ rest
unfolding esc_string
esc_string-st [] rest h = refl
esc_string-st (x ∷ []) rest h = ground (arith, esc_string-st [] rest refl)
esc_string-st (x ∷ y ∷ s) rest h = ground (arith, esc_string-st (y ∷ s) rest)

skip_string : (c : ℕ) (s : Text) → is_string_start c ≡ true → skip_escape (c ∷ s) ≡ esc_string s
unfolding skip_escape
skip_string c s h = ground arith

skip_charset : (c x : ℕ) (s : Text) → is_charset c ≡ true → skip_escape (c ∷ x ∷ s) ≡ s
unfolding skip_escape
skip_charset c x s h = ground arith

skip_short :
    (c : ℕ) (s : Text)
    → (c == b'[' || (is_string_start c || is_charset c)) ≡ false
    → skip_escape (c ∷ s) ≡ s
unfolding skip_escape
skip_short c s h = ground arith

skip_control :
    (params rest : Text) (final : ℕ)
    → any_of (λ (x : ℕ). not (is_param x)) params ≡ false
    → is_param final ≡ false
    → skip_escape (b'[' ∷ (params ++ (final ∷ rest))) ≡ rest
unfolding skip_escape
skip_control params rest final h k = rw (esc_params-run params rest final h k) refl

strip_ansi-skipped : (s rest : Text) → skip_escape s ≡ rest → strip_ansi (27 ∷ s) ≡ strip_ansi rest
strip_ansi-skipped s rest e = rw (strip_ansi_escape s, e) refl

strip_ansi-emitted :
    (p : Piece) (rest : Text)
    → WellFormed p
    → strip_ansi (emitted p rest) ≡ seen p (strip_ansi rest)
strip_ansi-emitted (Piece.byte c) rest w = strip_ansi_byte c rest w
strip_ansi-emitted (Piece.control params final) rest (h, k) =
    strip_ansi-skipped _ rest (skip_control params rest final h k)
strip_ansi-emitted (Piece.string_bel c s) rest (h, k) =
    strip_ansi-skipped _ rest (skip_string c _ h ∙ esc_string-bel s rest k)
strip_ansi-emitted (Piece.string_st c s) rest (h, k) =
    strip_ansi-skipped _ rest (skip_string c _ h ∙ esc_string-st s rest k)
strip_ansi-emitted (Piece.charset c x) rest w = strip_ansi-skipped _ rest (skip_charset c x rest w)
strip_ansi-emitted (Piece.short c) rest w = strip_ansi-skipped _ rest (skip_short c rest w)

-- Of an output made of bytes and whole escape sequences, in any order, exactly the bytes are left, in
-- their order and without CR and BEL: no part of a sequence stays as text, and no text goes with one.
pub strip_ansi-emitted_all :
    (ps : List Piece) → All WellFormed ps → strip_ansi (emitted_all ps) ≡ seen_all ps
unfolding strip_ansi
strip_ansi-emitted_all [] w = refl
strip_ansi-emitted_all (p ∷ ps) (w, ws) =
    rw (strip_ansi-emitted p (emitted_all ps) w, strip_ansi-emitted_all ps ws) refl
