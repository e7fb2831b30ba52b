-- ===== src/Core/Coalescer/Output.antt =====
-- `writeRun` of internal/core/viewport.go: the messages that the writer makes of one run.
-- `seqCounter.next`.
use herdr_expose.Core.Wire.{type_frame, encode_gap, stamp_header}
use herdr_expose.Prelude.Lists.{length, is_empty, drop}
use herdr_expose.Core.Coalescer.{max_write_bytes, payload_len, add_uint64, Buf, Run}
use herdr_expose.Prelude.{ℕ, zero, suc, ◌+◌, ◌||◌, List, [], ◌∷◌, ◌++◌}
use herdr_expose.Prelude.Tests.{ltb, leb, if◌then◌else◌}
use herdr_expose.Prelude.Text.{Text}

abbrev pub next_seq : ℕ → ℕ
next_seq n = add_uint64 n 1

-- The frames after the first that fit into one write with it, and the rest.
unfoldable pub gather : ℕ → ℕ → List Buf → List Buf × List Buf
gather hdr_len sum [] = ([], [])
gather hdr_len sum (f ∷ fs) =
    let more = gather hdr_len (sum + payload_len hdr_len f) fs in
    if leb (sum + payload_len hdr_len f) max_write_bytes then (f ∷ more.0, more.1) else ([], f ∷ fs)

abbrev pub payloads : ℕ → List Buf → Text
payloads hdr_len [] = []
payloads hdr_len (f ∷ fs) = drop hdr_len f.b ++ payloads hdr_len fs

abbrev pub zeros : ℕ → Text
zeros zero = []
zeros (suc n) = 0 ∷ zeros n

-- One message for the frames of a group: the only frame's own buffer with its header stamped in
-- place, or a new buffer with all the payloads behind a header.
unfoldable pub message : ℕ → Text → ℕ → Buf → List Buf → Text
message hdr_len target seq f [] = stamp_header f.b type_frame seq target
message hdr_len target seq f (g ∷ gs) =
    stamp_header (zeros hdr_len ++ payloads hdr_len (f ∷ g ∷ gs)) type_frame seq target

-- The group that begins with `f`, and what is left.
unfoldable pub group : ℕ → Buf → List Buf → List Buf × List Buf
unfolding gather
group hdr_len f fs =
    if is_empty fs || leb max_write_bytes (payload_len hdr_len f)
    then ([], fs)
    else gather hdr_len (payload_len hdr_len f) fs

-- `writeRun`: the messages, and the counter after them. The fuel is the number of frames.
unfoldable pub write_frames : ℕ → ℕ → Text → ℕ → List Buf → List Text × ℕ
unfolding group message
write_frames fuel hdr_len target seq [] = ([], seq)
write_frames zero hdr_len target seq (f ∷ fs) = ([], seq)
write_frames (suc fuel) hdr_len target seq (f ∷ fs) =
    let (gs, rest) = group hdr_len f fs in
    let (ms, last) = write_frames fuel hdr_len target (next_seq seq) rest in
    (message hdr_len target (next_seq seq) f gs ∷ ms, last)

-- The frames that `writeRun` is done with, turn by turn: a frame that is written alone goes to the
-- socket, and those of a group are released when they are copied.
unfoldable pub frames_gone : ℕ → ℕ → List Buf → List Buf
unfolding group
frames_gone fuel hdr_len [] = []
frames_gone zero hdr_len (f ∷ fs) = []
frames_gone (suc fuel) hdr_len (f ∷ fs) =
    let (gs, rest) = group hdr_len f fs in f ∷ (gs ++ frames_gone fuel hdr_len rest)

unfoldable pub run_gone : Run → List Buf
unfolding frames_gone
run_gone r = frames_gone (length r.frames) r.hdr_len r.frames

unfoldable pub write_run : ℕ → Run → List Text × ℕ
unfolding write_frames
write_run seq r = write_frames (length r.frames) r.hdr_len r.target seq r.frames

-- The writer's treatment of one run: the gap, if bytes were dropped, and then the frames.
unfoldable pub write_all : ℕ → Run → List Text × ℕ
unfolding write_run
write_all seq r =
    if ltb 0 r.dropped
    then (let (ms, last) = write_run (next_seq seq) r in
        (encode_gap (next_seq seq) r.target r.dropped ∷ ms, last))
    else write_run seq r
