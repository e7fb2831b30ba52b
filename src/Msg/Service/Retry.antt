-- ===== src/Msg/Service/Retry.antt =====
-- One turn of the loop `Run` of internal/msg/service.go: a sweep, and a delivery for each pending
-- request, all on one listing of the agents. What Herdr answers to each prompt is an argument.
use herdr_expose.Prelude.Lists.{In}
use herdr_expose.Prelude.{ℕ, ◌≡◌, refl, inl, inr, none, some, List, [], ◌∷◌, ◌++◌}
use herdr_expose.Prelude.Tests.{if◌then◌else◌, Bool-cases}
use herdr_expose.Msg.Store.{Store, Request, queued, blocked, delivered, list, sweep}
use herdr_expose.Msg.Service.{Listing, PromptAnswer, deliver, parts, split_address}
use herdr_expose.Msg.Service.Delivery.{IsReady, deliver-IsReady}

-- The deliveries, with the requests whose text was typed.
unfoldable pub deliver_all :
    ℕ → Listing → (Request → PromptAnswer) → List Request → Store → Store × List Request
unfolding deliver
deliver_all now l prompt [] s = (s, [])
deliver_all now l prompt (r ∷ rs) s =
    let d = deliver s now l (prompt r) r in
    let rest = deliver_all now l prompt rs d.store in
    (rest.0, if d.typed then r ∷ rest.1 else rest.1)

-- The copies that the turn starts from.
unfoldable pub waiting : Store → List Request
unfolding list
waiting s = list s (some queued) ++ (list s (some blocked) ++ list s (some delivered))

unfoldable pub round : Store → ℕ → Listing → (Request → PromptAnswer) → Store × List Request
unfolding sweep waiting deliver_all
round s now l prompt = let swept = sweep s now in deliver_all now l prompt (waiting swept) swept

-- A typed request was not delivered before, and its agent is ready.
pub IsDue : Listing → Request → Type 0
IsDue l r = (r.delivered_at ≡ none) × IsReady l (parts (split_address r.to))

deliver_all-IsDue :
    (now : ℕ) (l : Listing) (prompt : Request → PromptAnswer) (rs : List Request) (s : Store)
    (r : Request)
    → In r (deliver_all now l prompt rs s).1
    → In r rs × IsDue l r
unfolding deliver_all IsDue
deliver_all-IsDue now l prompt [] s r i = absurd i
deliver_all-IsDue now l prompt (q ∷ rs) s r i =
    let d = deliver s now l (prompt q) q in
    elim (Bool-cases d.typed) [
      | inl t ↦ elim (rw t at i) [
        | inl e ↦ rw e (inl refl, deliver-IsReady s now l (prompt q) q t)
        | inr k ↦ let (m, due) = deliver_all-IsDue now l prompt rs d.store r k in (inr m, due)
      ]
      | inr t ↦
          let (m, due) = deliver_all-IsDue now l prompt rs d.store r (rw t at i) in (inr m, due)
    ]

-- Whatever a turn of the retry loop types was pending after its sweep and not delivered by then, and
-- went to an agent that the turn's listing shows neither waiting on a dialog nor at work.
pub round-IsDue :
    (s : Store) (now : ℕ) (l : Listing) (prompt : Request → PromptAnswer) (r : Request)
    → In r (round s now l prompt).1
    → In r (waiting (sweep s now)) × IsDue l r
unfolding round
round-IsDue s now l prompt r i =
    deliver_all-IsDue now l prompt (waiting (sweep s now)) (sweep s now) r i
