-- ===== src/Services/Mock.antt =====
-- services/api and services/orchestrator: a chat from the public endpoint to the built-in replies and
-- back, and shutting down.
use frankai_online.Common.{List, [], ◌∷◌, true, false, ◌≡◌, refl, arith}
use frankai_online.Services.Health.{
  handled_by, without_handler, Signal, sigterm, sigint, shutdown, Handlers, closes,
}

-- After the first signal no later one closes the app.
closes-begun : (signals : List Signal) (handlers : Handlers) → closes signals handlers true ≡ 0
unfolding closes shutdown handled_by without_handler
closes-begun [] handlers = refl
closes-begun (sigterm ∷ signals) (term, int) =
    let rest = closes-begun signals (false, int) in
    let skipped = closes-begun signals (term, int) in ground arith
closes-begun (sigint ∷ signals) (term, int) =
    let rest = closes-begun signals (term, false) in
    let skipped = closes-begun signals (term, int) in ground arith

-- The signals to stop close the app exactly once, however many come and of whichever kind.
pub closes-once : (s : Signal) (signals : List Signal) → closes (s ∷ signals) (true, true) false ≡ 1
unfolding closes shutdown handled_by without_handler
closes-once sigterm signals = let rest = closes-begun signals (false, true) in ground arith
closes-once sigint signals = let rest = closes-begun signals (true, false) in ground arith
