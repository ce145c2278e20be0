-- ===== src/ErState/Program.antt =====
-- The instructions of the state account (lib.rs), and sequences of transactions.
use q2_26_accel_v1c70ryg0d.Prelude.{ℕ, List, [], ◌∷◌, Result, ok, err}
use q2_26_accel_v1c70ryg0d.Prelude.Words.{Bytes}
use q2_26_accel_v1c70ryg0d.ErState.{Error, World, Host}
use q2_26_accel_v1c70ryg0d.ErState.Handlers.{
  UserAccounts, initialize, update, update_commit, close, ConsumeAccounts, consume_random_update,
  scheduled_update,
}
use q2_26_accel_v1c70ryg0d.ErState.Outside.{
  delegate, undelegate, request_random_update, request_random_update_er, ScheduleAccounts,
  schedule_tuktuk_update,
}

pub data Transaction : Type 0 where
  initialize_tx undelegate_tx close_tx : UserAccounts → Transaction
  update_tx update_commit_tx delegate_tx : UserAccounts → ℕ → Transaction
  request_random_update_tx request_random_update_er_tx : UserAccounts → ℕ → ℕ → Transaction
  consume_random_update_tx : ConsumeAccounts → Bytes → Transaction
  scheduled_update_tx : ℕ → Transaction
  schedule_tuktuk_update_tx : ScheduleAccounts → ℕ → Transaction

unfoldable pub execute : Host → Transaction → World → Result Error World
execute h (initialize_tx a) w = initialize h a w
execute h (update_tx a new_data) w = update h a new_data w
execute h (update_commit_tx a new_data) w = update_commit h a new_data w
execute h (request_random_update_tx a queue seed) w = request_random_update h a queue seed w
execute h (request_random_update_er_tx a queue seed) w = request_random_update_er h a queue seed w
execute h (consume_random_update_tx a randomness) w = consume_random_update h a randomness w
execute h (scheduled_update_tx account) w = scheduled_update h account w
execute h (schedule_tuktuk_update_tx a task_id) w = schedule_tuktuk_update h a task_id w
execute h (delegate_tx a validator) w = delegate h a validator w
execute h (undelegate_tx a) w = undelegate h a w
execute h (close_tx a) w = close h a w

-- A transaction that fails is rolled back by the runtime.
abbrev pub settle : World → Result Error World → World
settle w (ok w') = w'
settle w (err e) = w

unfoldable pub execute_all : Host → List Transaction → World → World
execute_all h [] w = w
execute_all h (t ∷ ts) w = execute_all h ts (settle w (execute h t w))
