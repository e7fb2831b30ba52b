-- ===== src/Core/Viewport.antt =====
-- internal/core/viewport.go: what a client may render of a target, and the size of a terminal.
use herdr_expose.Prelude.{ℕ, ◌≡◌, refl, Bool, true, false, ◌&&◌}
use herdr_expose.Prelude.Tests.{ltb, ◌==◌, if◌then◌else◌}
use herdr_expose.Prelude.Text.{Text, bytes, text_eq}

pub data Mode : Type 0 where
  live : Mode
  summary : Mode
  transcript : Mode
  transcript_clean : Mode
  transcript_prose : Mode
  transcript_settled : Mode
  hidden : Mode

-- The string of a mode, which `==` compares.
abbrev pub mode_name : Mode → Text
mode_name Mode.live = bytes "live"
mode_name Mode.summary = bytes "summary"
mode_name Mode.transcript = bytes "transcript"
mode_name Mode.transcript_clean = bytes "transcript_clean"
mode_name Mode.transcript_prose = bytes "transcript_prose"
mode_name Mode.transcript_settled = bytes "transcript_settled"
mode_name Mode.hidden = bytes "none"

abbrev pub is_transcript : Mode → Bool
is_transcript Mode.transcript = true
is_transcript Mode.transcript_clean = true
is_transcript Mode.transcript_prose = true
is_transcript Mode.transcript_settled = true
is_transcript _ = false

abbrev pub is_live : Mode → Bool
is_live Mode.live = true
is_live _ = false

abbrev pub waits_for_settle : Mode → Bool
waits_for_settle Mode.transcript_settled = true
waits_for_settle _ = false

abbrev pub transcript_level : Mode → ℕ
transcript_level Mode.transcript_clean = 1
transcript_level Mode.transcript_prose = 2
transcript_level Mode.transcript_settled = 2
transcript_level _ = 0

unfoldable pub parse_mode : Text → Mode
parse_mode s =
    if text_eq s (bytes "live")
    then Mode.live
    else if text_eq s (bytes "summary")
    then Mode.summary
    else if text_eq s (bytes "transcript")
    then Mode.transcript
    else if text_eq s (bytes "transcript_clean")
    then Mode.transcript_clean
    else if text_eq s (bytes "transcript_prose")
    then Mode.transcript_prose
    else if text_eq s (bytes "transcript_settled")
    then Mode.transcript_settled
    else Mode.hidden

abbrev pub min_cols : ℕ
min_cols = 20

abbrev pub min_rows : ℕ
min_rows = 6

pub record Geometry : Type 0 where
  pub cols : ℕ
  pub rows : ℕ

abbrev pub no_geometry : Geometry
no_geometry = record { cols = 0; rows = 0 }

-- A size below nought, which a client may send, is clamped like nought is.
abbrev pub clamp : Geometry → Geometry
clamp g = record {
  cols = if ltb g.cols min_cols then min_cols else g.cols;
  rows = if ltb g.rows min_rows then min_rows else g.rows;
}

abbrev pub valid : Geometry → Bool
valid g = ltb 0 g.cols && ltb 0 g.rows

abbrev pub same_geometry : Geometry → Geometry → Bool
same_geometry g h = g.cols == h.cols && g.rows == h.rows

-- A mode is read back from the string that it is written as.
pub parse_mode-mode_name : (m : Mode) → parse_mode (mode_name m) ≡ m
unfolding parse_mode text_eq
parse_mode-mode_name Mode.live = refl
parse_mode-mode_name Mode.summary = refl
parse_mode-mode_name Mode.transcript = refl
parse_mode-mode_name Mode.transcript_clean = refl
parse_mode-mode_name Mode.transcript_prose = refl
parse_mode-mode_name Mode.transcript_settled = refl
parse_mode-mode_name Mode.hidden = refl
