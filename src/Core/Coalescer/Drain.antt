-- ===== src/Core/Coalescer/Drain.antt =====
-- What a drain of the coalescer of internal/core/viewport.go lifts out, and what it leaves.
use herdr_expose.Prelude.Lists.{In}
use herdr_expose.Prelude.Map.{
  total_zero, lookup-insert, insert-Unique, total-insert, at, insert, Unique, total, lookup, Map,
}
use herdr_expose.Prelude.{
  ℕ, ◌+◌, ◌≡◌, refl, sym, ◌⊎◌, inl, inr, false, none, some, List, [], ◌∷◌, arith,
}
use herdr_expose.Prelude.Tests.{Bool-cases, Option-cases}
use herdr_expose.Prelude.Text.{text_eq_iff, text_eq, Text}
use herdr_expose.Core.Coalescer.{Buf, Pending, Run, Coalescer, sizes, emptied, run_of, lift, drain}
use herdr_expose.Core.Coalescer.Bytes.{IsValid, frame_bytes}

-- The sum of a measure of frames over the runs.
abbrev pub over_runs : (List Buf → ℕ) → List Run → ℕ
over_runs φ [] = 0
over_runs φ (r ∷ rs) = φ r.frames + over_runs φ rs

abbrev pub over_entry : (List Buf → ℕ) → Pending → ℕ
over_entry φ p = φ p.frames

lift_step :
    (P : Map Pending × List Run → Type 0) (t : Text) (ts : List Text) (m : Map Pending)
    → (lookup t m ≡ none → P (lift ts m))
    → ((p : Pending)
        → lookup t m ≡ some p
        → P (
          (lift ts (insert t (emptied p) m)).0,
          run_of t p ∷ (lift ts (insert t (emptied p) m)).1,
        ))
    → P (lift (t ∷ ts) m)
unfolding lift
lift_step P t ts m miss hit = elim (Option-cases (lookup t m)) [
  | inl e ↦ rw (e, lift) (miss e)
  | inr (p, e) ↦ rw (e, lift) (hit p e)
]

-- Whatever is measured of the frames, the entries and the runs together hold what the entries held.
pub lift-total :
    (φ : List Buf → ℕ)
    → φ [] ≡ 0
    → (ts : List Text) (m : Map Pending)
    → total (over_entry φ) (lift ts m).0 + over_runs φ (lift ts m).1 ≡ total (over_entry φ) m
lift-total φ z [] m = unfold lift in omega arith
lift-total φ z (t ∷ ts) m =
    lift_step (λ r. total (over_entry φ) r.0 + over_runs φ r.1 ≡ total (over_entry φ) m) t ts m
      (λ _. lift-total φ z ts m)
      λ p e.
        let k : at (over_entry φ) (lookup t m) ≡ φ p.frames = rw e refl in
        omega (
          arith,
          lift-total φ z ts (insert t (emptied p) m),
          total-insert (over_entry φ) t (emptied p) m,
        )

lift-Unique : (ts : List Text) (m : Map Pending) → Unique m → Unique (lift ts m).0
lift-Unique [] m u = unfold lift in u
lift-Unique (t ∷ ts) m u =
    lift_step (λ r. Unique r.0) t ts m (λ _. lift-Unique ts m u)
      λ p e. lift-Unique ts (insert t (emptied p) m) (insert-Unique t (emptied p) m u)

abbrev pub IsIdle : Pending → Type 0
IsIdle p = (p.frames ≡ []) × (p.queued ≡ false)

lift-IsIdle :
    (ts : List Text) (m : Map Pending)
    → ((t : Text) (p : Pending) → lookup t m ≡ some p → In t ts ⊎ IsIdle p)
    → (t : Text) (p : Pending) → lookup t (lift ts m).0 ≡ some p
    → IsIdle p
lift-IsIdle [] m h = λ t p e. elim (h t p (unfold lift in e)) [ inl i ↦ elim i [ ] | inr k ↦ k ]
lift-IsIdle (s ∷ ts) m h =
    lift_step (λ r. (t : Text) (p : Pending) → lookup t r.0 ≡ some p → IsIdle p) s ts m
      (λ e. lift-IsIdle ts m λ t p f. elim (h t p f) [
        | inl (inl q) ↦ let e' : lookup t m ≡ none = rw q e in absurd (ground (arith, e', f))
        | inl (inr i) ↦ inl i
        | inr k ↦ inr k
      ])
      λ p0 e. lift-IsIdle ts (insert s (emptied p0) m) λ t p f. elim (Bool-cases (text_eq s t)) [
        | inl same ↦
            let g : some (emptied p0) ≡ some p = rw (lookup-insert s t (emptied p0) m, same) at f in
            inr (ground arith, ground arith)
        | inr other ↦ elim (h t p (rw (lookup-insert s t (emptied p0) m, other) at f)) [
          | inl (inl q) ↦ absurd (ground (arith, text_eq_iff s t))
          | inl (inr i) ↦ inl i
          | inr k ↦ inr k
        ]
      ]

-- A drain of an open coalescer lifts out every byte that waited: the runs hold as many bytes as the
-- connection counted, the count is nought, and the invariant holds again.
pub drain-IsValid :
    (c : Coalescer)
    → IsValid c
    → c.closed ≡ false
    → IsValid (drain c).0
      × ((drain c).0.bytes ≡ 0)
      × ((drain c).0.order ≡ [])
      × (over_runs sizes (drain c).1 ≡ c.bytes)
unfolding drain
drain-IsValid c v open_ =
    let idle : (t : Text) (p : Pending) → lookup t (lift c.order c.pending).0 ≡ some p → IsIdle p =
      lift-IsIdle c.order c.pending
        λ t p e. elim (v.waiting t p e) [ inl w ↦ inl w.0 | inr k ↦ inr k ] in
    let empty : total frame_bytes (lift c.order c.pending).0 ≡ 0 =
      total_zero frame_bytes _ (lift-Unique c.order c.pending v.unique)
        (λ t p e. rw ((idle t p e).0) refl) in
    simp open_ (
      record {
        unique = lift-Unique c.order c.pending v.unique;
        counted = sym empty;
        capped = omega arith;
        waiting = λ t p e. inr (idle t p e);
      },
      refl,
      refl,
      omega (arith, v.counted, lift-total sizes refl c.order c.pending),
    )
