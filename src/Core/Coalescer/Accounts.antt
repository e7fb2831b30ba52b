-- ===== src/Core/Coalescer/Accounts.antt =====
-- What the coalescer of internal/core/viewport.go reports of the bytes that it could not send.
use herdr_expose.Prelude.Map.{lookup-insert, lookup-insert_self, lookup, insert}
use herdr_expose.Prelude.{
  ℕ, ◌+◌, ◌-◌, ◌%◌, ◌^◌, ◌<◌, ◌≡◌, refl, ap, subst, ◌∙◌, ◌≢◌, ◌⊎◌, inl, inr, Bool, true, false,
  some, List, [], ◌∷◌, ◌++◌, arith,
}
use herdr_expose.Prelude.Tests.{if_split, ltb}
use herdr_expose.Prelude.Text.{text_eq_ne, Text}
use herdr_expose.Core.Coalescer.{
  Buf, size, sizes, payload_len, Pending, Coalescer, Room, slot, wake, supersede, overflow, append,
  settle, drop_frames, queue_entry, stored, push, max_queue_bytes, add_uint64,
}

-- The payload bytes of frames.
abbrev pub weigh : ℕ → List Buf → ℕ
weigh h [] = 0
weigh h (f ∷ fs) = payload_len h f + weigh h fs

weigh-append : (h : ℕ) (fs gs : List Buf) → weigh h (fs ++ gs) ≡ weigh h fs + weigh h gs
weigh-append h [] gs = omega arith
weigh-append h (f ∷ fs) gs = omega (arith, weigh-append h fs gs)

drop_frames-weigh :
    (h d : ℕ) (fs : List Buf) → drop_frames h d fs % 2 ^ 64 ≡ (d + weigh h fs) % 2 ^ 64
unfolding drop_frames
drop_frames-weigh h d [] = omega arith
drop_frames-weigh h d (f ∷ fs) =
    omega (arith, drop_frames-weigh h (add_uint64 d (payload_len h f)) fs)

pub stored-pending :
    (c : Coalescer) (target : Text) (h : ℕ) (r : Room)
    → (stored c target h r).pending ≡ insert target r.entry c.pending
unfolding stored wake
stored-pending c target h r =
    if_split (λ (d : Coalescer). d.pending ≡ insert target r.entry c.pending) c.closed (λ _. refl)
      (λ _. refl)

-- The entry that an open coalescer has for the target after a push.
abbrev pushed : Coalescer → Text → Buf → ℕ → Bool → Pending
pushed c target buf h full = (settle (supersede full c.bytes (queue_entry c target h)) buf h).entry

push-pending :
    (c : Coalescer) (target : Text) (buf : Buf) (h : ℕ) (full : Bool)
    → c.closed ≡ false
    → (push c target buf h full).0.pending ≡ insert target (pushed c target buf h full) c.pending
unfolding push
push-pending c target buf h full e =
    if_split
      (λ (r : Coalescer × List Buf).
        r.0.pending ≡ insert target (pushed c target buf h full) c.pending)
      c.closed (λ k. absurd (cc (e, k)))
      λ _.
        stored-pending c target h (settle (supersede full c.bytes (queue_entry c target h)) buf h)

settle-accounts :
    (r : Room) (buf : Buf) (h : ℕ)
    → r.entry.hdr_len ≡ h
    → let p = (settle r buf h).entry in
      ((p.dropped + weigh h p.frames) % 2 ^ 64
        ≡ (r.entry.dropped + weigh h r.entry.frames + payload_len h buf) % 2 ^ 64)
      × ((p.repaint ≡ true) ⊎ (p.dropped ≡ r.entry.dropped))
unfolding settle overflow append
settle-accounts r buf h e =
    if_split
      (λ (q : Room).
        ((q.entry.dropped + weigh h q.entry.frames) % 2 ^ 64
          ≡ (r.entry.dropped + weigh h r.entry.frames + payload_len h buf) % 2 ^ 64)
        × ((q.entry.repaint ≡ true) ⊎ (q.entry.dropped ≡ r.entry.dropped)))
      (ltb max_queue_bytes (r.bytes + size buf))
      (λ _.
        let k =
          subst
            (λ (n : ℕ).
              drop_frames r.entry.hdr_len r.entry.dropped r.entry.frames % 2 ^ 64
              ≡ (r.entry.dropped + weigh n r.entry.frames) % 2 ^ 64)
            e (drop_frames-weigh r.entry.hdr_len r.entry.dropped r.entry.frames) in
        (omega (arith, k), inl refl))
      (λ _. (omega (arith, weigh-append h r.entry.frames (buf ∷ [])), inr refl))

-- An ordinary frame is never lost silently: after a push the target's waiting payload and its count
-- of dropped bytes together have grown by exactly the payload of the frame (as 64-bit counts), the
-- count moves only with a repaint on order, and another target's entry does not change.
pub push_accounts :
    (c : Coalescer) (target other : Text) (buf : Buf) (h : ℕ)
    → target ≢ other
    → c.closed ≡ false
    → (slot h (lookup target c.pending)).hdr_len ≡ h
    → let before = slot h (lookup target c.pending) in
      let after = (push c target buf h false).0.pending in
      (p : Pending) × (lookup target after ≡ some p)
      × ((p.dropped + weigh h p.frames) % 2 ^ 64
          ≡ (before.dropped + weigh h before.frames + payload_len h buf) % 2 ^ 64)
      × ((p.repaint ≡ true) ⊎ (p.dropped ≡ before.dropped))
      × (lookup other after ≡ lookup other c.pending)
unfolding supersede queue_entry
push_accounts c target other buf h ne open_ e =
    let (k, l) = settle-accounts (supersede false c.bytes (queue_entry c target h)) buf h e in
    let after = push-pending c target buf h false open_ in
    (
      pushed c target buf h false,
      rw after (lookup-insert_self target (pushed c target buf h false) c.pending),
      k,
      l,
      rw
          (
            after,
            lookup-insert target other (pushed c target buf h false) c.pending,
            text_eq_ne target other ne,
          )
          refl,
    )

settle-overflow :
    (r : Room) (buf : Buf) (h : ℕ)
    → max_queue_bytes < r.bytes + size buf
    → settle r buf h ≡ overflow r buf h
unfolding settle
settle-overflow r buf h big =
    let e : ltb max_queue_bytes (r.bytes + size buf) ≡ true = ground arith in rw e refl

-- A full repaint that does not fit under the cap empties the target's entry, yet the gap that it
-- reports is the payload of the repaint alone: the frames that it threw away and the bytes dropped
-- before it are not counted, however many they are.
pub push_full_undercounts :
    (c : Coalescer) (target : Text) (buf : Buf) (h : ℕ)
    → c.closed ≡ false
    → max_queue_bytes < c.bytes - sizes (slot h (lookup target c.pending)).frames + size buf
    → (p : Pending) × (lookup target (push c target buf h true).0.pending ≡ some p)
      × (p.frames ≡ [])
      × (p.repaint ≡ true)
      × (p.dropped ≡ payload_len h buf % 2 ^ 64)
unfolding supersede queue_entry overflow drop_frames
push_full_undercounts c target buf h open_ big =
    let after = push-pending c target buf h true open_ in
    let over = settle-overflow (supersede true c.bytes (queue_entry c target h)) buf h big in
    (
      pushed c target buf h true,
      rw after (lookup-insert_self target (pushed c target buf h true) c.pending),
      ap (λ (r : Room). r.entry.frames) over,
      ap (λ (r : Room). r.entry.repaint) over,
      ap (λ (r : Room). r.entry.dropped) over ∙ omega arith,
    )
