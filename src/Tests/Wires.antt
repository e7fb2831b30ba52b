-- ===== src/Tests/Wires.antt =====
-- The wire format and the targets at concrete inputs.
use herdr_expose.Core.Wire.RoundTrip.{decode_server_frame-stamp_header}
use herdr_expose.Core.Coalescer.Output.{zeros}
use herdr_expose.Core.Wire.{type_frame, frame, stamp_header, decode_server_frame, header_len_for}
use herdr_expose.Prelude.{◌≡◌, refl, [], ◌∷◌, ◌++◌, arith}
use herdr_expose.Prelude.Text.{bytes, Text}

abbrev target : Text
target = bytes "work/w1:p1"

abbrev payload : Text
payload = 104 ∷ 105 ∷ []

decode_server_frame-stamp_header_example :
    decode_server_frame (stamp_header (zeros 21 ++ payload) type_frame 7 target)
    ≡ frame (record { typ = type_frame; seq = 7; target = target; payload = payload })
unfolding header_len_for
decode_server_frame-stamp_header_example =
    decode_server_frame-stamp_header type_frame 7 target (zeros 21) payload (omega arith)
      (omega arith) refl
