-- ===== src/Core/Hub/Steps.antt =====
-- A run of one connection of internal/core/hub.go: what its client sends, what its streams do, and
-- whatever the other connections do to the hub in between.
use herdr_expose.Prelude.{ℕ, Bool, List, [], ◌∷◌}
use herdr_expose.Prelude.Text.{Text}
use herdr_expose.Prelude.Map.{Map}
use herdr_expose.Core.Viewport.{Geometry}
use herdr_expose.Core.Hub.{Hub, Session, Upstream}
use herdr_expose.Core.Hub.Streams.{
  set_geometry, match_pane, set_viewport, input, scroll, repaint, close, take_frame,
}
use herdr_expose.Core.Hub.Restarts.{on_closed, attempt}

pub data Op : Type 0 where
  shown : Map Text → Op
  sized : Bool → Text → Geometry → Op
  matched : Text → Op
  typed : Text → Text → Op
  scrolled : Text → ℕ → Op
  repainted : Text → Op
  framed : Text → ℕ → Bool → Geometry → Op
  died : Text → ℕ → Op
  restarted : Text → ℕ → Op
  shut : Op
  elsewhere : Hub → Op

unfoldable pub apply : Upstream → Text → Op → Hub × Session → Hub × Session
unfolding set_geometry match_pane set_viewport input scroll repaint close take_frame on_closed
    attempt
apply up me (Op.shown decl) s = set_viewport up me decl s
apply up me (Op.sized resized target g) s = set_geometry up resized me target g s
apply up me (Op.matched target) s = match_pane up me target s
apply up me (Op.typed target keys_) s = (input up me target keys_ s).0
apply up me (Op.scrolled target delta) (h, c) = (h, (scroll target delta c).0)
apply up me (Op.repainted target) (h, c) = (h, repaint target c)
apply up me (Op.framed target serial full g) (h, c) = (h, (take_frame target serial full g c).0)
apply up me (Op.died target serial) (h, c) = (h, (on_closed target serial c).0)
apply up me (Op.restarted target n) s = (attempt up me target n s).0
apply up me Op.shut s = close me s
apply up me (Op.elsewhere h) (g, c) = (h, c)

unfoldable pub run : Upstream → Text → List Op → Hub × Session → Hub × Session
unfolding apply
run up me [] s = s
run up me (op ∷ ops) s = run up me ops (apply up me op s)
