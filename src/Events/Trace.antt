-- ===== src/Events/Trace.antt =====
-- Sequences of outbox operations, each with the clock that its process read.
use mcpmem.Prelude.{ℕ, String, Bool, List, [], ◌∷◌}
use mcpmem.Events.Records.{Outbox, EventDelivery}
use mcpmem.Events.{enqueue_delivery, claim_due, complete, retry}

pub data Op : Type 0 where
  enqueues : ℕ → ℕ → ℕ → Op
  claims : ℕ → ℕ → ℕ → Op
  completes : EventDelivery → ℕ → Op
  retries : EventDelivery → ℕ → ℕ → String → Bool → Op

unfoldable pub step : Op → Outbox → Outbox
step (enqueues delivery event subscription) s = (enqueue_delivery delivery event subscription s).0
step (claims token now duration) s = (claim_due token now duration s).0
step (completes d now) s = (complete d now s).0
step (retries d now next error is_dead) s = (retry d now next error is_dead s).0

unfoldable pub run : List Op → Outbox → Outbox
run [] s = s
run (op ∷ ops) s = run ops (step op s)
