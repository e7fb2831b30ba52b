-- ===== src/Core/Seen/Marks.antt =====
-- Which DONE badges a connection of internal/core/seen.go shows.

use herdr_expose.Prelude.Map.{lookup-insert, Unique, Map, lookup}
use herdr_expose.Core.Seen.{SeenSet, seen_of, mark_seen, unseen, decorate}
use herdr_expose.Prelude.{
  ℕ, ◌≡◌, refl, subst, inl, inr, true, false, not, ◌&&◌, ◌||◌, some, [], ◌∷◌, arith,
}
use herdr_expose.Prelude.Tests.{is_some, or_zero, ltb, ◌==◌, if◌then◌else◌, Bool-cases}
use herdr_expose.Prelude.Text.{text_eq_refl, text_eq_iff, text_eq, member, Text}

-- A mark takes away exactly the badges of its own pane up to the counter it acknowledges: every other
-- badge of the connection stays as it was, and an older mark never brings one back.
unseen-mark_seen :
    (s : SeenSet) (pane other : Text) (d e : ℕ)
    → unseen (mark_seen s pane d) other e
      ≡ (unseen s other e && (not (text_eq pane other) || ltb d e))
unfolding unseen mark_seen seen_of
unseen-mark_seen s pane other d e = elim (Bool-cases (ltb (or_zero (lookup pane s)) d)) [
  | inl later ↦
      rw (later, lookup-insert pane other d s)
        (elim (Bool-cases (text_eq pane other)) [
          | inl same ↦
              let k : pane ≡ other = (text_eq_iff pane other).0 same in
              rw same (
                marked (or_zero (lookup other s)) d e
                  (subst (λ (t : Text). ltb (or_zero (lookup t s)) d ≡ true) k later))
          | inr apart ↦ rw apart (ground arith)
        ])
  | inr older ↦ rw older (elim (Bool-cases (text_eq pane other)) [
    | inl same ↦
        let k : pane ≡ other = (text_eq_iff pane other).0 same in
        rw same (
          kept (or_zero (lookup other s)) d e
            (subst (λ (t : Text). ltb (or_zero (lookup t s)) d ≡ false) k older))
    | inr apart ↦ rw apart (ground arith)
  ])
]
  where
    marked :
        (n d e : ℕ)
        → ltb n d ≡ true
        → (if e == 0 then false else ltb d e)
          ≡ ((if e == 0 then false else ltb n e) && (false || ltb d e))
    marked n d e h = ground arith

    kept :
        (n d e : ℕ)
        → ltb n d ≡ false
        → (if e == 0 then false else ltb n e)
          ≡ ((if e == 0 then false else ltb n e) && (false || ltb d e))
    kept n d e h = ground arith

decorate-absent :
    (s : SeenSet) (done : Map ℕ) (pane : Text)
    → is_some (lookup pane done) ≡ false
    → member pane (decorate s done) ≡ false
unfolding decorate lookup member
decorate-absent s [] pane h = refl
decorate-absent s ((k, seq) ∷ done) pane h =
    ground (arith, text_eq_iff k pane, text_eq_iff pane k, decorate-absent s done pane)

-- The panes that a connection is told to show as DONE are just those whose counter it has not
-- acknowledged, where each pane has one counter.
decorate-unseen :
    (s : SeenSet) (done : Map ℕ) (pane : Text) (seq : ℕ)
    → Unique done
    → lookup pane done ≡ some seq
    → member pane (decorate s done) ≡ unseen s pane seq
unfolding decorate lookup member unseen
decorate-unseen s [] pane seq u h = cc
decorate-unseen s ((k, n) ∷ done) pane seq u h = elim (Bool-cases (text_eq k pane)) [
  | inl same ↦
      let e : k ≡ pane = (text_eq_iff k pane).0 same in
      let gone = decorate-absent s done pane (rw e at (u.0)) in
      ground (arith, same, e, gone, text_eq_refl pane)
  | inr apart ↦
      ground
        (arith, apart, text_eq_iff pane k, text_eq_iff k pane, decorate-unseen s done pane seq u.1)
]
