-- ===== src/Core/Coalescer/Bytes.antt =====
-- The invariant of the coalescer of internal/core/viewport.go: its byte count, its cap and its order.
use herdr_expose.Prelude.Tests.{if_split, Option-cases, Bool-cases}
use herdr_expose.Prelude.Lists.{In-append_left, In-append_right, In}
use herdr_expose.Prelude.{
  refl, inl, inr, none, false, ◌∙◌, false, [], ◌+◌, ◌∷◌, ◌++◌, ◌⊎◌, true, none, some, arith, Option,
  ◌≡◌, ◌≤◌, List, Bool, ℕ,
}
use herdr_expose.Prelude.Map.{lookup-insert, insert-Unique, total-insert, total, at, lookup, Unique}
use herdr_expose.Prelude.Text.{text_eq_iff, text_eq, Text}
use herdr_expose.Core.Coalescer.{
  gap_room, Buf, sizes, Pending, Coalescer, Room, slot, wake, supersede, overflow, append, settle,
  queue_entry, queue_order, stored, push, mark_gap, emptied, max_queue_bytes,
}

abbrev pub frame_bytes : Pending → ℕ
frame_bytes p = sizes p.frames

pub record IsValid (c : Coalescer) : Type 0 where
  pub unique : Unique c.pending
  pub counted : c.bytes ≡ total frame_bytes c.pending
  pub capped : c.bytes ≤ max_queue_bytes
  pub waiting :
      (t : Text) (p : Pending)
      → lookup t c.pending ≡ some p
      → (In t c.order × (p.queued ≡ true)) ⊎ ((p.frames ≡ []) × (p.queued ≡ false))

pub sizes-append : (fs gs : List Buf) → sizes (fs ++ gs) ≡ sizes fs + sizes gs
sizes-append [] gs = omega arith
sizes-append (f ∷ fs) gs = omega (arith, sizes-append fs gs)

abbrev Balanced : ℕ → List Buf → Room → Type 0
Balanced bytes frames r = r.bytes + sizes frames ≡ bytes + sizes r.entry.frames

supersede-Balanced :
    (full : Bool) (bytes : ℕ) (p : Pending)
    → sizes p.frames ≤ bytes
    → Balanced bytes p.frames (supersede full bytes p)
      × (sizes (supersede full bytes p).entry.frames ≤ (supersede full bytes p).bytes)
      × ((supersede full bytes p).bytes ≤ bytes)
unfolding supersede
supersede-Balanced true bytes p h = omega arith
supersede-Balanced false bytes p h = omega arith

settle-Balanced :
    (r : Room) (buf : Buf) (hdr_len : ℕ)
    → sizes r.entry.frames ≤ r.bytes
    → r.bytes ≤ max_queue_bytes
    → Balanced r.bytes r.entry.frames (settle r buf hdr_len)
      × ((settle r buf hdr_len).bytes ≤ max_queue_bytes)
unfolding settle overflow append
settle-Balanced r buf hdr_len h k = ground (arith, sizes-append r.entry.frames (buf ∷ []))

at-slot : (hdr_len : ℕ) (o : Option Pending) → at frame_bytes o ≡ sizes (slot hdr_len o).frames
unfolding slot
at-slot hdr_len none = refl
at-slot hdr_len (some p) = refl

slot-le :
    (c : Coalescer) (target : Text) (hdr_len : ℕ)
    → IsValid c
    → sizes (slot hdr_len (lookup target c.pending)).frames ≤ c.bytes
slot-le c target hdr_len v = omega (
  arith,
  at-slot hdr_len (lookup target c.pending),
  total-insert frame_bytes target (emptied (slot hdr_len none)) c.pending,
  v.counted,
)

queue_order-In :
    (c : Coalescer) (target : Text) (hdr_len : ℕ)
    → IsValid c
    → In target (queue_order c target hdr_len)
unfolding queue_order slot
queue_order-In c target hdr_len v = elim (Option-cases (lookup target c.pending)) [
  | inl e ↦ rw e (In-append_right target c.order (target ∷ []) (inl refl))
  | inr (p, e) ↦ rw e (elim (Bool-cases p.queued) [
    | inl q ↦ rw q (elim (v.waiting target p e) [ inl w ↦ w.0 | inr w ↦ absurd (cc (w.1, q)) ])
    | inr q ↦ rw q (In-append_right target c.order (target ∷ []) (inl refl))
  ])
]

queue_order-keeps :
    (c : Coalescer) (target t : Text) (hdr_len : ℕ)
    → In t c.order
    → In t (queue_order c target hdr_len)
unfolding queue_order
queue_order-keeps c target t hdr_len i =
    elim (Bool-cases (slot hdr_len (lookup target c.pending)).queued) [
      | inl e ↦ rw e i
      | inr e ↦ rw e (In-append_left t c.order (target ∷ []) i)
    ]

wake-IsValid : (c : Coalescer) → IsValid c → IsValid (wake c)
unfolding wake
wake-IsValid c v = elim (Bool-cases c.closed) [
  | inl e ↦ simp e v
  | inr e ↦
      simp e
        (record { unique = v.unique; counted = v.counted; capped = v.capped; waiting = v.waiting })
]

stored-IsValid :
    (c : Coalescer) (target : Text) (hdr_len : ℕ) (r : Room)
    → IsValid c
    → Balanced c.bytes (slot hdr_len (lookup target c.pending)).frames r
    → r.bytes ≤ max_queue_bytes
    → r.entry.queued ≡ true
    → IsValid (stored c target hdr_len r)
unfolding stored
stored-IsValid c target hdr_len r v b k q = wake-IsValid _ (record {
  unique = insert-Unique target r.entry c.pending v.unique;
  counted = omega (
    arith,
    v.counted,
    at-slot hdr_len (lookup target c.pending),
    total-insert frame_bytes target r.entry c.pending,
  );
  capped = k;
  waiting = λ t p e. elim (Bool-cases (text_eq target t)) [
    | inl same ↦
        let h : some r.entry ≡ some p = rw (lookup-insert target t r.entry c.pending, same) at e in
        let here : target ≡ t = (text_eq_iff target t).0 same in
        inl (rw (← here) (queue_order-In c target hdr_len v), ground arith)
    | inr other ↦ elim (v.waiting t p (rw (lookup-insert target t r.entry c.pending, other) at e)) [
      | inl w ↦ inl (queue_order-keeps c target t hdr_len w.0, w.1)
      | inr w ↦ inr w
    ]
  ];
})

settle-queued :
    (r : Room) (buf : Buf) (hdr_len : ℕ) → (settle r buf hdr_len).entry.queued ≡ r.entry.queued
unfolding settle overflow append
settle-queued r buf hdr_len = ground arith

supersede-queued :
    (full : Bool) (bytes : ℕ) (p : Pending) → (supersede full bytes p).entry.queued ≡ p.queued
unfolding supersede
supersede-queued true bytes p = refl
supersede-queued false bytes p = refl

-- Every push keeps the invariant: the connection's byte count is the number of bytes that wait in
-- its entries, it never passes the cap of 4 MiB, and what waits stands in the writer's order.
pub push-IsValid :
    (c : Coalescer) (target : Text) (buf : Buf) (hdr_len : ℕ) (full : Bool)
    → IsValid c
    → IsValid (push c target buf hdr_len full).0
unfolding push queue_entry
push-IsValid c target buf hdr_len full v =
    if_split (λ (r : Coalescer × List Buf). IsValid r.0) c.closed (λ _. v)
      (λ _.
        let p : Pending = queue_entry c target hdr_len in
        let (b, k, l) = supersede-Balanced full c.bytes p (slot-le c target hdr_len v) in
        let (b', k') =
          settle-Balanced (supersede full c.bytes p) buf hdr_len k (omega (arith, v.capped)) in
        stored-IsValid c target hdr_len (settle (supersede full c.bytes p) buf hdr_len) v
          (omega arith) k'
          (settle-queued (supersede full c.bytes p) buf hdr_len ∙ supersede-queued full c.bytes p))

-- So does a gap that is recorded from outside.
mark_gap-IsValid :
    (c : Coalescer) (target : Text) (dropped hdr_len : ℕ)
    → IsValid c
    → IsValid (mark_gap c target dropped hdr_len)
unfolding mark_gap queue_entry gap_room
mark_gap-IsValid c target dropped hdr_len v =
    if_split IsValid c.closed (λ _. v)
      (λ _.
        stored-IsValid c target hdr_len (gap_room c (queue_entry c target hdr_len) dropped) v refl
          v.capped refl)
