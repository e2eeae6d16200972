-- ===== src/Worker/Loop.antt =====
-- `RunRecurrenceWorker` of internal/worker/recurrence.go. The ticker and the context are a list of
-- what the loop receives.
use metery.Prelude.{List, [], ◌∷◌}
use metery.Store.Db.{Env, World}
use metery.Service.Rpc.{Codec}
use metery.Worker.{process_recurrence}

-- `ticker.C`, every minute, and `ctx.Done()`.
pub data Signal : Type 0 where
  tick done : Signal

-- The loop, which ends when the context is done, and waits where nothing comes.
unfoldable pub run_recurrence_worker : {M : Type 0} → Codec M → Env → List Signal → World → World
run_recurrence_worker codec env [] w = w
run_recurrence_worker codec env (done ∷ signals) w = w
run_recurrence_worker codec env (tick ∷ signals) w =
    run_recurrence_worker codec env signals (process_recurrence codec env w).1
