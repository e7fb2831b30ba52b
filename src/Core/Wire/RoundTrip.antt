-- ===== src/Core/Wire/RoundTrip.antt =====
-- Encoding and decoding in internal/core/wire.go undo one another.
use herdr_expose.Prelude.{ℕ, ◌/◌, ◌%◌, ◌^◌, ◌<◌, ◌≡◌, refl, ◌∷◌, ◌++◌, arith, false, inl, inr}
use herdr_expose.Prelude.Tests.{ltb, Bool-cases}
use herdr_expose.Prelude.Lists.{
  length, take, length-append, length-take, take_append, drop_append, take-append-drop, All,
}
use herdr_expose.Prelude.Text.{Text}
use herdr_expose.Core.Wire.{
  put_uint64, read_uint16, read_uint64, encode_frame, encode_gap, stamp_header, type_gap,
  header_len_for, ClientFrame, frame, client_body, server_body, decode_client_frame,
  decode_server_frame, client_frame,
}

server_body_lem :
    (typ seq n : ℕ) (target payload : Text)
    → n ≡ length target
    → server_body typ seq n (target ++ payload)
      ≡ frame (record { typ = typ; seq = seq; target = target; payload = payload })
unfolding server_body
server_body_lem typ seq n target payload e =
    let le : ltb (length (target ++ payload)) (length target) ≡ false =
      ground (arith, length-append target payload) in
    rw (e, le, take_append target payload, drop_append target payload) refl

-- The server's frame decodes to its parts, for a sequence number of 64 bits and a target whose
-- length fits its 16 bits.
pub decode_server_frame-encode_frame :
    (typ seq : ℕ) (target payload : Text)
    → seq < 2 ^ 64
    → length target < 2 ^ 16
    → decode_server_frame (encode_frame typ seq target payload)
      ≡ frame (record { typ = typ; seq = seq; target = target; payload = payload })
unfolding decode_server_frame encode_frame
decode_server_frame-encode_frame typ seq target payload hs ht =
    let es : read_uint64 (seq / 2 ^ 56 % 256) (seq / 2 ^ 48 % 256) (seq / 2 ^ 40 % 256)
          (seq / 2 ^ 32 % 256) (seq / 2 ^ 24 % 256) (seq / 2 ^ 16 % 256) (seq / 2 ^ 8 % 256)
          (seq % 256)
        ≡ seq =
      omega arith in
    let et : read_uint16 (length target % 2 ^ 16 / 2 ^ 8) (length target % 2 ^ 16 % 256)
        ≡ length target =
      omega arith in
    rw es (server_body_lem typ seq _ target payload et)

-- A gap frame decodes to the number of dropped bytes that it was built from, in eight bytes.
decode_server_frame-encode_gap :
    (seq dropped : ℕ) (target : Text)
    → seq < 2 ^ 64
    → length target < 2 ^ 16
    → decode_server_frame (encode_gap seq target dropped)
      ≡ frame (record { typ = type_gap; seq = seq; target = target; payload = put_uint64 dropped })
unfolding encode_gap
decode_server_frame-encode_gap seq dropped target =
    decode_server_frame-encode_frame type_gap seq target (put_uint64 dropped)

-- Stamping the header into the reserved front of a buffer makes a frame that carries exactly the
-- bytes behind the reserved front: no byte of the payload is lost or changed.
pub decode_server_frame-stamp_header :
    (typ seq : ℕ) (target front payload : Text)
    → seq < 2 ^ 64
    → length target < 2 ^ 16
    → length front ≡ header_len_for target
    → decode_server_frame (stamp_header (front ++ payload) typ seq target)
      ≡ frame (record { typ = typ; seq = seq; target = target; payload = payload })
unfolding stamp_header
decode_server_frame-stamp_header typ seq target front payload hs ht e =
    rw (← e, drop_append front payload)
      (unfold encode_frame in decode_server_frame-encode_frame typ seq target payload hs ht)

-- The bytes of a client's frame, as the file's comment draws them, decode to its parts.
decode_client_frame-client_frame :
    (typ : ℕ) (target payload : Text)
    → length target < 2 ^ 16
    → decode_client_frame (client_frame typ target payload)
      ≡ frame (record { typ = typ; target = target; payload = payload })
unfolding decode_client_frame client_frame client_body
decode_client_frame-client_frame typ target payload ht =
    let et : read_uint16 (length target % 2 ^ 16 / 2 ^ 8) (length target % 2 ^ 16 % 256)
        ≡ length target =
      omega arith in
    let le : ltb (length (target ++ payload)) (length target) ≡ false =
      ground (arith, length-append target payload) in
    rw (et, le, take_append target payload, drop_append target payload) refl

-- What a body that decodes consists of.
client_body_parts :
    (typ n : ℕ) (rest : Text) {f : ClientFrame}
    → client_body typ n rest ≡ frame f
    → (f.typ ≡ typ) × (length f.target ≡ n) × (f.target ++ f.payload ≡ rest)
unfolding client_body
client_body_parts typ n rest {f} e = elim (Bool-cases (ltb (length rest) n)) [
  | inl s ↦ absurd (ground arith)
  | inr s ↦
      let k : length (take n rest) ≡ n = ground (arith, length-take n rest) in
      (ground arith, ground arith, ground (arith, take-append-drop n rest))
]

-- A frame that decodes is spelled by the bytes it came from: nothing between the header, the target
-- and the payload is skipped or read twice.
client_frame-decode_client_frame :
    (buf : Text) {f : ClientFrame}
    → All (λ b. b < 256) buf
    → decode_client_frame buf ≡ frame f
    → client_frame f.typ f.target f.payload ≡ buf
unfolding decode_client_frame client_frame
client_frame-decode_client_frame (typ ∷ a ∷ b ∷ rest) {f} h e =
    let (et, en, er) = client_body_parts typ (read_uint16 a b) rest e in
    let hi : length f.target % 2 ^ 16 / 2 ^ 8 ≡ a = omega arith in
    let lo : length f.target % 2 ^ 16 % 256 ≡ b = omega arith in cc (hi, lo, et, er)
client_frame-decode_client_frame _ h e = cc
