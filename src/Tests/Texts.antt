-- ===== src/Tests/Texts.antt =====
-- Escape sequences at concrete inputs.
use herdr_expose.Core.Ansi.Pieces.{Piece, emitted_all, seen_all, strip_ansi-emitted_all}
use herdr_expose.Core.Ansi.{strip_ansi}
use herdr_expose.Prelude.{◌≡◌, refl, List, [], ◌∷◌}
use herdr_expose.Prelude.Text.{bytes}

abbrev coloured : List Piece
coloured =
    Piece.string_bel b']' (bytes "0;t")
    ∷ Piece.control (bytes "31") b'm'
    ∷ Piece.byte b'x'
    ∷ Piece.charset b'(' b'B'
    ∷ Piece.string_st b'P' (bytes "q")
    ∷ Piece.byte 13
    ∷ Piece.short b'M'
    ∷ Piece.byte b'y'
    ∷ []

strip_ansi-emitted_all_example : strip_ansi (emitted_all coloured) ≡ seen_all coloured
strip_ansi-emitted_all_example =
    strip_ansi-emitted_all coloured
      ((refl, refl), ((refl, refl), (refl, (refl, ((refl, refl), (refl, (refl, (refl, tt))))))))

coloured_text : seen_all coloured ≡ bytes "xy"
coloured_text = refl
