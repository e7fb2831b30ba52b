-- ===== src/Core/Seen.antt =====
-- internal/core/seen.go: what one connection has acknowledged. The set is the map `seen`, and the set
-- that `Decorate` returns is the list of its keys. The counters are numbers.
pub mod Marks
use herdr_expose.Prelude.Map.{lookup, delete, insert, Map}
use herdr_expose.Prelude.{
  ℕ, zero, suc, ◌+◌, ◌-◌, ◌*◌, ◌/◌, ◌%◌, ◌^◌, ◌≤◌, ◌<◌, ◌≡◌, refl, sym, ap, ap₂, subst, ◌∙◌, ◌≢◌,
  ◌↔◌, ◌⊎◌, inl, inr, Bool, true, false, not, ◌&&◌, ◌||◌, Option, none, some, List, [], ◌∷◌, ◌++◌,
  map, append-nil, append_assoc, arith,
}
use herdr_expose.Prelude.Tests.{
  or_zero, ltb, leb, ◌==◌, ==_iff, if◌then◌else◌, Bool-cases, Option-cases,
}
use herdr_expose.Prelude.Text.{Text}

abbrev pub SeenSet : Type 0
SeenSet = Map ℕ

-- `s.seen[paneID]`, nought if the pane is missing.
unfoldable pub seen_of : SeenSet → Text → ℕ
seen_of s pane = or_zero (lookup pane s)

unfoldable pub mark_seen : SeenSet → Text → ℕ → SeenSet
unfolding seen_of
mark_seen s pane done_seq = if ltb (seen_of s pane) done_seq then insert pane done_seq s else s

unfoldable pub unseen : SeenSet → Text → ℕ → Bool
unfolding seen_of
unseen s pane done_seq = if done_seq == 0 then false else ltb (seen_of s pane) done_seq

unfoldable pub forget : SeenSet → Text → SeenSet
forget s pane = delete pane s

unfoldable pub decorate : SeenSet → Map ℕ → List Text
unfolding seen_of
decorate s [] = []
decorate s ((pane, seq) ∷ done) =
    let rest = decorate s done in
    if ltb 0 seq && ltb (seen_of s pane) seq then pane ∷ rest else rest
