-- ===== src/Core/Coalescer/Writer.antt =====
-- What `writeRun` of internal/core/viewport.go puts on the wire: all the payload bytes, in order.
use herdr_expose.Prelude.Lists.{
  take-append-drop, length-drop, drop, All-append_right, length-take, length-append, All, take,
  is_empty, length,
}
use herdr_expose.Prelude.{
  ℕ, zero, suc, ◌+◌, ◌^◌, ◌≤◌, ◌<◌, ◌≡◌, refl, sym, ap, subst, ◌∙◌, ◌||◌, List, [], ◌∷◌, ◌++◌,
  append-nil, append_assoc, arith,
}
use herdr_expose.Prelude.Tests.{if_split, leb}
use herdr_expose.Prelude.Text.{Text}
use herdr_expose.Core.Wire.{type_frame, header_len_for, decode_server_frame, frame}
use herdr_expose.Core.Wire.RoundTrip.{decode_server_frame-stamp_header}
use herdr_expose.Core.Coalescer.{Buf, Run, size, payload_len, max_write_bytes}
use herdr_expose.Core.Coalescer.Output.{
  payloads, gather, group, message, zeros, next_seq, write_frames, frames_gone, run_gone, write_run,
}

-- The messages decode, one by one, to frames of the target with consecutive sequence numbers and at
-- most `limit` bytes of payload, and their payloads make up `out`.
abbrev pub Delivers : Text → ℕ → ℕ → List Text → Text → Type 0
Delivers target limit seq [] out = out ≡ []
Delivers target limit seq (m ∷ ms) out =
    (payload : Text) × (rest : Text) × (decode_server_frame m
      ≡ frame (record { typ = type_frame; seq = next_seq seq; target = target; payload = payload }))
    × (length payload ≤ limit)
    × (out ≡ payload ++ rest)
    × Delivers target limit (next_seq seq) ms rest

-- A frame reserved its header, and its payload is within the limit.
abbrev pub IsFrame : ℕ → ℕ → Buf → Type 0
IsFrame hdr_len limit f = (hdr_len ≤ size f) × (payload_len hdr_len f ≤ limit)

length-zeros : (n : ℕ) → length (zeros n) ≡ n
length-zeros zero = refl
length-zeros (suc n) = ap suc (length-zeros n)

payloads-append :
    (h : ℕ) (fs gs : List Buf) → payloads h (fs ++ gs) ≡ payloads h fs ++ payloads h gs
payloads-append h [] gs = refl
payloads-append h (f ∷ fs) gs = simp (payloads-append h fs gs, append_assoc)

message-decodes :
    (target : Text) (seq : ℕ) (f : Buf) (gs : List Buf)
    → header_len_for target ≤ size f
    → length target < 2 ^ 16
    → decode_server_frame (message (header_len_for target) target (next_seq seq) f gs)
      ≡ frame (record {
        typ = type_frame;
        seq = next_seq seq;
        target = target;
        payload = payloads (header_len_for target) (f ∷ gs);
      })
unfolding message
message-decodes target seq f [] h t =
    let n = header_len_for target in
    let k : length (take n f.b) ≡ n = omega (arith, length-take n f.b) in
    let e =
      decode_server_frame-stamp_header type_frame (next_seq seq) target (take n f.b) (drop n f.b)
        (omega arith) t k in
    simp append-nil (rw (take-append-drop n f.b) at e)
message-decodes target seq f (g ∷ gs) h t =
    decode_server_frame-stamp_header type_frame (next_seq seq) target
      (zeros (header_len_for target)) (payloads (header_len_for target) (f ∷ g ∷ gs)) (omega arith)
      t (length-zeros (header_len_for target))

payloads-split :
    (h : ℕ) (f : Buf) (fs gs rest : List Buf)
    → gs ++ rest ≡ fs
    → payloads h (f ∷ fs) ≡ payloads h (f ∷ gs) ++ payloads h rest
payloads-split h f fs gs rest e = rw (← e) (
    ap (◌++◌ (drop h f.b)) (payloads-append h gs rest)
    ∙ sym (append_assoc (drop h f.b) (payloads h gs) (payloads h rest)))

gather-append : (h sum : ℕ) (fs : List Buf) → (gather h sum fs).0 ++ (gather h sum fs).1 ≡ fs
unfolding gather
gather-append h sum [] = refl
gather-append h sum (f ∷ fs) =
    if_split (λ (r : List Buf × List Buf). r.0 ++ r.1 ≡ f ∷ fs)
      (leb (sum + payload_len h f) max_write_bytes)
      (λ _. ap (◌∷◌ f) (gather-append h (sum + payload_len h f) fs)) (λ _. refl)

gather_bound :
    (h sum limit : ℕ) (fs : List Buf)
    → sum ≤ limit
    → max_write_bytes ≤ limit
    → sum + length (payloads h (gather h sum fs).0) ≤ limit
unfolding gather
gather_bound h sum limit [] k m = omega arith
gather_bound h sum limit (f ∷ fs) k m =
    if_split (λ (r : List Buf × List Buf). sum + length (payloads h r.0) ≤ limit)
      (leb (sum + payload_len h f) max_write_bytes)
      (λ e.
        let e' : sum + payload_len h f ≤ max_write_bytes = ground arith in
        omega (
          arith,
          gather_bound h (sum + payload_len h f) limit fs (omega arith) m,
          length-append (drop h f.b) (payloads h (gather h (sum + payload_len h f) fs).0),
          length-drop h f.b,
        ))
      (λ _. omega arith)

group-append : (h : ℕ) (f : Buf) (fs : List Buf) → (group h f fs).0 ++ (group h f fs).1 ≡ fs
unfolding group
group-append h f fs =
    if_split (λ (r : List Buf × List Buf). r.0 ++ r.1 ≡ fs)
      (is_empty fs || leb max_write_bytes (payload_len h f)) (λ _. refl)
      (λ _. gather-append h (payload_len h f) fs)

frames_gone-all : (fuel h : ℕ) (fs : List Buf) → length fs ≤ fuel → frames_gone fuel h fs ≡ fs
unfolding frames_gone
frames_gone-all zero h [] n = refl
frames_gone-all (suc fuel) h [] n = refl
frames_gone-all zero h (f ∷ fs) n = absurd (omega arith)
frames_gone-all (suc fuel) h (f ∷ fs) n =
    let gs : List Buf = (group h f fs).0 in
    let rest : List Buf = (group h f fs).1 in
    let whole : gs ++ rest ≡ fs = group-append h f fs in
    let short_ : length rest ≤ fuel = omega (arith, length-append gs rest, ap length whole) in
    rw (frames_gone-all fuel h rest short_) (ap (λ xs. f ∷ xs) whole)

-- The loop of the writer disposes of each frame of its run, in order.
pub run_gone-all : (r : Run) → run_gone r ≡ r.frames
unfolding run_gone
run_gone-all r = frames_gone-all (length r.frames) r.hdr_len r.frames (omega arith)

group_bound :
    (h limit : ℕ) (f : Buf) (fs : List Buf)
    → payload_len h f ≤ limit
    → max_write_bytes ≤ limit
    → length (payloads h (f ∷ (group h f fs).0)) ≤ limit
unfolding group
group_bound h limit f fs k m =
    if_split (λ (r : List Buf × List Buf). length (payloads h (f ∷ r.0)) ≤ limit)
      (is_empty fs || leb max_write_bytes (payload_len h f))
      (λ _. omega (arith, length-append (drop h f.b) [], length-drop h f.b))
      λ _. omega (
        arith,
        gather_bound h (payload_len h f) limit fs k m,
        length-append (drop h f.b) (payloads h (gather h (payload_len h f) fs).0),
        length-drop h f.b,
      )

write_frames-Delivers :
    (fuel limit : ℕ) (target : Text) (seq : ℕ) (fs : List Buf)
    → length fs ≤ fuel
    → length target < 2 ^ 16
    → max_write_bytes ≤ limit
    → All (IsFrame (header_len_for target) limit) fs
    → Delivers target limit seq
        (write_frames fuel (header_len_for target) target seq fs).0
        (payloads (header_len_for target) fs)
unfolding write_frames
write_frames-Delivers zero limit target seq [] n t m a = refl
write_frames-Delivers (suc fuel) limit target seq [] n t m a = refl
write_frames-Delivers zero limit target seq (f ∷ fs) n t m a = absurd (omega arith)
write_frames-Delivers (suc fuel) limit target seq (f ∷ fs) n t m a =
    let h = header_len_for target in
    let gs : List Buf = (group h f fs).0 in
    let rest : List Buf = (group h f fs).1 in
    let whole : gs ++ rest ≡ fs = group-append h f fs in
    let short_ : length rest ≤ fuel = omega (arith, length-append gs rest, ap length whole) in
    (
      payloads h (f ∷ gs),
      payloads h rest,
      message-decodes target seq f gs a.0.0 t,
      group_bound h limit f fs a.0.1 m,
      payloads-split h f fs gs rest whole,
      write_frames-Delivers fuel limit target (next_seq seq) rest short_ t m
          (All-append_right _ gs rest (rw whole a.1)),
    )

-- The writer sends every payload byte of a run exactly once and in order, in frames that any client
-- decodes, numbered one after the other; no message carries more than 64 KiB unless a single frame
-- does. The target's length fits the header, and each frame reserved room for the header.
pub write_run-Delivers :
    (r : Run) (limit seq : ℕ)
    → length r.target < 2 ^ 16
    → max_write_bytes ≤ limit
    → r.hdr_len ≡ header_len_for r.target
    → All (IsFrame r.hdr_len limit) r.frames
    → Delivers r.target limit seq (write_run seq r).0 (payloads r.hdr_len r.frames)
unfolding write_run
write_run-Delivers r limit seq t m e a =
    subst
      (λ (h : ℕ).
        All (IsFrame h limit) r.frames
        → Delivers r.target limit seq (write_frames (length r.frames) h r.target seq r.frames).0
            (payloads h r.frames))
      (sym e)
      (write_frames-Delivers (length r.frames) limit r.target seq r.frames (omega arith) t m) a
