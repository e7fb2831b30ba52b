-- ===== src/Core/Wire.antt =====
-- internal/core/wire.go: the binary frames of the data plane. A byte is a number below 256, and a
-- pooled buffer is the list of its bytes.
pub mod RoundTrip
use herdr_expose.Prelude.{ℕ, zero, suc, ◌+◌, ◌*◌, ◌/◌, ◌%◌, ◌^◌, ◌++◌, List, [], ◌∷◌}
use herdr_expose.Prelude.Tests.{ltb, if◌then◌else◌}
use herdr_expose.Prelude.Lists.{length, take, drop}
use herdr_expose.Prelude.Text.{Text}

abbrev pub type_frame : ℕ
type_frame = 1

abbrev pub type_snapshot : ℕ
type_snapshot = 2

abbrev pub type_gap : ℕ
type_gap = 3

abbrev pub type_input : ℕ
type_input = 16

abbrev pub server_header_len : ℕ
server_header_len = 11

abbrev pub client_header_len : ℕ
client_header_len = 3

-- `binary.BigEndian.PutUint64`.
abbrev pub put_uint64 : ℕ → Text
put_uint64 n =
    (n / 2 ^ 56 % 256)
    ∷ (n / 2 ^ 48 % 256)
    ∷ (n / 2 ^ 40 % 256)
    ∷ (n / 2 ^ 32 % 256)
    ∷ (n / 2 ^ 24 % 256)
    ∷ (n / 2 ^ 16 % 256)
    ∷ (n / 2 ^ 8 % 256)
    ∷ (n % 256)
    ∷ []

-- `binary.BigEndian.PutUint16` of a length, converted to `uint16` first.
abbrev pub put_uint16 : ℕ → Text
put_uint16 n = (n % 2 ^ 16 / 2 ^ 8) ∷ (n % 2 ^ 16 % 256) ∷ []

abbrev pub read_uint16 : ℕ → ℕ → ℕ
read_uint16 a b = a * 256 + b

abbrev pub server_header : ℕ → ℕ → Text → Text
server_header typ seq target = typ ∷ (put_uint64 seq ++ (put_uint16 (length target) ++ target))

unfoldable pub encode_frame : ℕ → ℕ → Text → Text → Text
encode_frame typ seq target payload = server_header typ seq target ++ payload

unfoldable pub encode_gap : ℕ → Text → ℕ → Text
unfolding encode_frame
encode_gap seq target dropped = encode_frame type_gap seq target (put_uint64 dropped)

unfoldable pub header_len_for : Text → ℕ
header_len_for target = server_header_len + length target

-- The header is written over the front of a buffer that reserved room for it.
unfoldable pub stamp_header : Text → ℕ → ℕ → Text → Text
unfolding header_len_for
stamp_header b typ seq target = server_header typ seq target ++ drop (header_len_for target) b

pub record ClientFrame : Type 0 where
  pub typ : ℕ
  pub target : Text
  pub payload : Text

pub record ServerFrame : Type 0 where
  pub typ : ℕ
  pub seq : ℕ
  pub target : Text
  pub payload : Text

-- The frame, or `ErrShortFrame`.
pub data Decoded {ℓ} (A : Type ℓ) : Type ℓ where
  frame : A → Decoded A
  short : Decoded A

-- Past the fixed header, `tlen` bytes of target and the rest.
unfoldable pub client_body : ℕ → ℕ → Text → Decoded ClientFrame
client_body typ tlen rest =
    if ltb (length rest) tlen
    then short
    else frame (record { typ = typ; target = take tlen rest; payload = drop tlen rest })

unfoldable pub decode_client_frame : Text → Decoded ClientFrame
unfolding client_body
decode_client_frame (typ ∷ a ∷ b ∷ rest) = client_body typ (read_uint16 a b) rest
decode_client_frame _ = short

unfoldable pub server_body : ℕ → ℕ → ℕ → Text → Decoded ServerFrame
server_body typ seq tlen rest =
    if ltb (length rest) tlen
    then short
    else frame (record { typ = typ; seq = seq; target = take tlen rest; payload = drop tlen rest })

abbrev pub read_uint64 : ℕ → ℕ → ℕ → ℕ → ℕ → ℕ → ℕ → ℕ → ℕ
read_uint64 a b c d e f g h =
    a * 2 ^ 56 + b * 2 ^ 48 + c * 2 ^ 40 + d * 2 ^ 32 + e * 2 ^ 24 + f * 2 ^ 16 + g * 2 ^ 8 + h

unfoldable pub decode_server_frame : Text → Decoded ServerFrame
unfolding server_body
decode_server_frame (typ ∷ a ∷ b ∷ c ∷ d ∷ e ∷ f ∷ g ∷ h ∷ i ∷ j ∷ rest) =
    server_body typ (read_uint64 a b c d e f g h) (read_uint16 i j) rest
decode_server_frame _ = short

-- A client's side of the format, as the comment of the file draws it: the server only decodes.
unfoldable pub client_frame : ℕ → Text → Text → Text
client_frame typ target payload = typ ∷ (put_uint16 (length target) ++ (target ++ payload))
