-- ===== src/Core/Hub/Shown.antt =====
-- internal/core/hub.go: SetViewport leaves no stream on a target that it declares a transcript.
use herdr_expose.Prelude.{
  ◌≡◌, refl, sym, ap, subst, ◌∙◌, ◌⊎◌, inl, inr, Bool, true, false, not, ◌&&◌, none, some, List, [],
  ◌∷◌, arith,
}
use herdr_expose.Prelude.Tests.{if_split, Bool-cases, is_some}
use herdr_expose.Prelude.Text.{Text, text_eq, text_eq_iff}
use herdr_expose.Prelude.Map.{Map, lookup}
use herdr_expose.Core.Viewport.{Mode, is_transcript, parse_mode, parse_mode-mode_name, mode_name}
use herdr_expose.Core.Hub.{TerminalMode, Hub, Session, Upstream, mode_of}
use herdr_expose.Core.Hub.Modes.{show-modes}
use herdr_expose.Core.Hub.Streams.{show, show_all, hide_all, was_shown, needs_reconcile, granted}
use herdr_expose.Core.Hub.Bare.{
  Bare, after_Bare, stop_self, stop_stream-Bare, start_stream-Bare, mode_same,
}

module _ (t : Text) where
  granted-Bare :
      (target : Text) (c : Session) (x : (Hub × Session) × Bool)
      → Bare t c x.0
      → Bare t c (granted target x)
  granted-Bare target c (s, false) b = b
  granted-Bare target c ((h, d), true) b = b

  show-Bare :
      (up : Upstream) (me target : Text) (mode : Mode) (h : Hub) (c : Session)
      → is_transcript (mode_of t c) ≡ true
      → lookup t c.streams ≡ none
      → Bare t c (show up me target mode (h, c))
  unfolding show
  show-Bare up me target Mode.live h c ht e =
      granted-Bare target c _ (start_stream-Bare t up me target TerminalMode.observe _ c ht e)
  show-Bare up me target Mode.summary h c ht e = stop_stream-Bare t me target _ c e
  show-Bare up me target Mode.hidden h c ht e = stop_stream-Bare t me target h c e
  show-Bare up me target Mode.transcript h c ht e = stop_stream-Bare t me target h c e
  show-Bare up me target Mode.transcript_clean h c ht e = stop_stream-Bare t me target h c e
  show-Bare up me target Mode.transcript_prose h c ht e = stop_stream-Bare t me target h c e
  show-Bare up me target Mode.transcript_settled h c ht e = stop_stream-Bare t me target h c e

  show_self :
      (up : Upstream) (me : Text) (mode : Mode) (h : Hub) (c : Session)
      → is_transcript mode ≡ true
      → Bare t c (show up me t mode (h, c))
  unfolding show
  show_self up me Mode.live h c ht = absurd (cc (ht))
  show_self up me Mode.summary h c ht = absurd (cc (ht))
  show_self up me Mode.hidden h c ht = absurd (cc (ht))
  show_self up me Mode.transcript h c ht = stop_self t me h c
  show_self up me Mode.transcript_clean h c ht = stop_self t me h c
  show_self up me Mode.transcript_prose h c ht = stop_self t me h c
  show_self up me Mode.transcript_settled h c ht = stop_self t me h c

  pub hide_all-Bare :
      (up : Upstream) (me : Text) (want : Map Mode) (targets : List Text) (s : Hub × Session)
      → is_transcript (mode_of t s.1) ≡ true
      → lookup t s.1.streams ≡ none
      → Bare t s.1 (hide_all up me want targets s)
  unfolding hide_all
  hide_all-Bare up me want [] s ht e = (e, refl)
  hide_all-Bare up me want (target ∷ targets) s ht e =
      if_split (Bare t s.1) (is_some (lookup target want))
        (λ _. hide_all-Bare up me want targets s ht e)
        λ _.
          after_Bare t s.1 (show up me target Mode.hidden s)
            (hide_all up me want targets (show up me target Mode.hidden s)) ht
            (show-Bare up me target Mode.hidden s.0 s.1 ht e)
            (λ ht2 e2. hide_all-Bare up me want targets (show up me target Mode.hidden s) ht2 e2)

  pub same_mode : (m n : Mode) → text_eq (mode_name m) (mode_name n) ≡ true → m ≡ n
  same_mode m n e =
      let q : mode_name m ≡ mode_name n = (text_eq_iff (mode_name m) (mode_name n)).0 e in
      sym (parse_mode-mode_name m) ∙ (ap parse_mode q ∙ parse_mode-mode_name n)

  -- Of the targets that are left to show, `t` is one, and it was not shown so before.
  abbrev pub Due : Map Mode → Map Mode → Type 0
  Due old want =
      (mode : Mode) × (lookup t want ≡ some mode)
      × (is_transcript mode ≡ true)
      × (was_shown t mode old ≡ false)

  pub show_all-Bare :
      (up : Upstream) (me : Text) (old want : Map Mode) (s : Hub × Session)
      → is_transcript (mode_of t s.1) ≡ true
      → (lookup t s.1.streams ≡ none) ⊎ Due old want
      → Bare t s.1 (show_all up me old want s)
  unfolding show_all lookup
  show_all-Bare up me old [] s ht (inl e) = (e, refl)
  show_all-Bare up me old [] s ht (inr (mode, h, tm, d)) = absurd (cc (h))
  show_all-Bare up me old ((target, mode) ∷ want) s ht (inl e) =
      if_split (Bare t s.1) (was_shown target mode old && not (needs_reconcile target mode s.1))
        (λ _. show_all-Bare up me old want s ht (inl e))
        λ _.
          after_Bare t s.1 (show up me target mode s)
            (show_all up me old want (show up me target mode s)) ht
            (show-Bare up me target mode s.0 s.1 ht e)
            (λ ht2 e2. show_all-Bare up me old want (show up me target mode s) ht2 (inl e2))
  show_all-Bare up me old ((target, mode) ∷ want) s ht (inr (m, h, tm, d)) =
      elim (Bool-cases (text_eq target t)) [
        | inl q ↦
            let same : target ≡ t = (text_eq_iff target t).0 q in
            let hm : some mode ≡ some m = rw q at h in
            let em : mode ≡ m = cc (hm) in
            let fresh : was_shown target mode old ≡ false = rw (same, em) d in
            let shown : Bare t s.1 (show up me target mode s) =
              subst (λ x. Bare t s.1 (show up me x mode s)) (sym same)
                (show_self up me mode s.0 s.1 (rw em tm)) in
            if_split (Bare t s.1)
              (was_shown target mode old && not (needs_reconcile target mode s.1))
              (λ b. absurd (ground (arith, fresh, b)))
              λ _.
                after_Bare t s.1 (show up me target mode s)
                  (show_all up me old want (show up me target mode s)) ht shown
                  (λ ht2 e2. show_all-Bare up me old want (show up me target mode s) ht2 (inl e2))
        | inr q ↦
            let later : Due old want = (m, rw q at h, tm, d) in
            let ht2 : is_transcript (mode_of t (show up me target mode s).1) ≡ true =
              ap is_transcript
                (mode_same t s.1 (show up me target mode s).1 (show-modes up me target mode s))
              ∙ ht in
            if_split (Bare t s.1)
              (was_shown target mode old && not (needs_reconcile target mode s.1))
              (λ _. show_all-Bare up me old want s ht (inr later))
              λ _.
                let (e3, m3) =
                  show_all-Bare up me old want (show up me target mode s) ht2 (inr later) in
                (e3, m3 ∙ show-modes up me target mode s)
      ]
