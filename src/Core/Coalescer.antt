-- ===== src/Core/Coalescer.antt =====
-- internal/core/viewport.go: the coalescer that batches one connection's terminal output. Frames of
-- a target wait under a byte cap; a single writer lifts them out under the lock and writes them
-- outside of it. The time stamps, which only feed a metric, and the spare slices, which are always
-- empty and only keep capacity, are left out. Each pooled buffer has a number, so that the theorems
-- can say what becomes of it.
pub mod Output
pub mod Writer
pub mod Bytes
pub mod Drain
pub mod Accounts
pub mod System
use herdr_expose.Prelude.{
  ℕ, zero, suc, ◌+◌, ◌-◌, ◌*◌, ◌%◌, ◌^◌, ◌++◌, Bool, true, false, ◌||◌, Option, none, some, List,
  [], ◌∷◌,
}
use herdr_expose.Prelude.Tests.{ltb, leb, if◌then◌else◌}
use herdr_expose.Prelude.Lists.{length, drop, snoc, is_empty}
use herdr_expose.Prelude.Map.{Map, lookup, insert}
use herdr_expose.Prelude.Text.{Text}
use herdr_expose.Core.Wire.{type_frame, encode_gap, stamp_header}

abbrev pub max_write_bytes : ℕ
max_write_bytes = 65536

abbrev pub max_queue_bytes : ℕ
max_queue_bytes = 4194304

-- Addition of `uint64` values.
abbrev pub add_uint64 : ℕ → ℕ → ℕ
add_uint64 a b = (a + b) % 2 ^ 64

pub record Buf : Type 0 where
  pub id : ℕ
  pub b : Text

abbrev pub size : Buf → ℕ
size f = length f.b

abbrev pub sizes : List Buf → ℕ
sizes [] = 0
sizes (f ∷ fs) = size f + sizes fs

-- `f.Len() - hdrLen`. A frame reserves its header, so the difference is not negative.
abbrev pub payload_len : ℕ → Buf → ℕ
payload_len hdr_len f = size f - hdr_len

pub record Pending : Type 0 where
  pub frames : List Buf
  pub bytes : ℕ
  pub dropped : ℕ
  pub repaint : Bool
  pub queued : Bool
  pub hdr_len : ℕ

pub record Run : Type 0 where
  pub target : Text
  pub frames : List Buf
  pub dropped : ℕ
  pub repaint : Bool
  pub hdr_len : ℕ

pub record Coalescer : Type 0 where
  pub pending : Map Pending
  pub order : List Text
  pub bytes : ℕ
  pub closed : Bool
  -- A token waits in the one-slot channel `sig`.
  pub signalled : Bool

unfoldable pub new_coalescer : Coalescer
new_coalescer = record { pending = []; order = []; bytes = 0; closed = false; signalled = false }

-- `pending[target]`, or a new entry.
unfoldable pub slot : ℕ → Option Pending → Pending
slot hdr_len none = record {
  frames = [];
  bytes = 0;
  dropped = 0;
  repaint = false;
  queued = false;
  hdr_len = hdr_len;
}
slot hdr_len (some p) = p

unfoldable pub wake : Coalescer → Coalescer
wake c = if c.closed then c else record c { signalled = true }

-- A target's entry, the connection's byte count, and the buffers released on the way.
pub record Room : Type 0 where
  pub entry : Pending
  pub bytes : ℕ
  pub freed : List Buf

-- A full repaint supersedes everything that waits for the target.
unfoldable pub supersede : Bool → ℕ → Pending → Room
supersede true bytes p = record {
  entry = record p { frames = []; bytes = 0; dropped = 0; repaint = false };
  bytes = bytes - sizes p.frames;
  freed = p.frames;
}
supersede false bytes p = record { entry = p; bytes = bytes; freed = [] }

unfoldable pub drop_frames : ℕ → ℕ → List Buf → ℕ
drop_frames hdr_len dropped [] = dropped
drop_frames hdr_len dropped (f ∷ fs) =
    drop_frames hdr_len (add_uint64 dropped (payload_len hdr_len f)) fs

unfoldable pub overflow : Room → Buf → ℕ → Room
overflow r buf hdr_len = record {
  entry = record p {
    frames = [];
    bytes = 0;
    dropped = add_uint64 (drop_frames p.hdr_len p.dropped p.frames) (payload_len hdr_len buf);
    repaint = true;
  };
  bytes = r.bytes - sizes p.frames;
  freed = r.freed ++ (p.frames ++ (buf ∷ []));
}
  where
    open r use {entry as p}

unfoldable pub append : Room → Buf → Room
append r buf = record {
  entry = record p { frames = snoc p.frames buf; bytes = p.bytes + size buf };
  bytes = r.bytes + size buf;
  freed = r.freed;
}
  where
    open r use {entry as p}

unfoldable pub settle : Room → Buf → ℕ → Room
settle r buf hdr_len =
    if ltb max_queue_bytes (r.bytes + size buf) then overflow r buf hdr_len else append r buf

-- The entry of the target with `queued` set, and the order with the target in it.
unfoldable pub queue_entry : Coalescer → Text → ℕ → Pending
unfolding slot
queue_entry c target hdr_len = record (slot hdr_len (lookup target c.pending)) { queued = true }

unfoldable pub queue_order : Coalescer → Text → ℕ → List Text
unfolding slot
queue_order c target hdr_len =
    if (slot hdr_len (lookup target c.pending)).queued then c.order else snoc c.order target

unfoldable pub stored : Coalescer → Text → ℕ → Room → Coalescer
unfolding queue_order wake
stored c target hdr_len r = wake (record c {
  pending = insert target r.entry c.pending;
  order = queue_order c target hdr_len;
  bytes = r.bytes;
})

-- The coalescer after `push`, and the buffers that the call released.
unfoldable pub push : Coalescer → Text → Buf → ℕ → Bool → Coalescer × List Buf
unfolding stored settle supersede queue_entry
push c target buf hdr_len full =
    if c.closed
    then (c, buf ∷ [])
    else let r = settle (supersede full c.bytes (queue_entry c target hdr_len)) buf hdr_len in
      (stored c target hdr_len r, r.freed)

unfoldable pub gap_room : Coalescer → Pending → ℕ → Room
gap_room c p dropped = record {
  entry = record p { dropped = add_uint64 p.dropped dropped; repaint = true };
  bytes = c.bytes;
  freed = [];
}

unfoldable pub mark_gap : Coalescer → Text → ℕ → ℕ → Coalescer
unfolding stored queue_entry gap_room
mark_gap c target dropped hdr_len =
    if c.closed
    then c
    else stored c target hdr_len (gap_room c (queue_entry c target hdr_len) dropped)

abbrev pub emptied : Pending → Pending
emptied p = record p { frames = []; bytes = 0; queued = false; dropped = 0; repaint = false }

abbrev pub run_of : Text → Pending → Run
run_of target p = record {
  target = target;
  frames = p.frames;
  dropped = p.dropped;
  repaint = p.repaint;
  hdr_len = p.hdr_len;
}

-- The loop of `run` over `c.order`, under the lock.
unfoldable pub lift : List Text → Map Pending → Map Pending × List Run
lift [] m = (m, [])
lift (t ∷ ts) m = elim (lookup t m) [
  | none ↦ lift ts m
  | some p ↦ let (m', runs) = lift ts (insert t (emptied p) m) in (m', run_of t p ∷ runs)
]

unfoldable pub drain : Coalescer → Coalescer × List Run
unfolding lift
drain c =
    if c.closed
    then (c, [])
    else let (m, runs) = lift c.order c.pending in
      (record c { pending = m; order = []; bytes = 0 }, runs)
