-- ===== src/Oracle/Program.antt =====
-- The instructions of the oracle scheduler (lib.rs), and sequences of transactions.
use q2_26_accel_v1c70ryg0d.Prelude.{ℕ, List, [], ◌∷◌, Result, ok, err}
use q2_26_accel_v1c70ryg0d.Prelude.Words.{Bytes}
use q2_26_accel_v1c70ryg0d.Oracle.{Error, World, Host}
use q2_26_accel_v1c70ryg0d.Oracle.Handlers.{
  InitializeAccounts, initialize, ContextAccounts, create_context, FundAccounts, fund_treasury,
  RequestAccounts, request_gpt, CallbackAccounts, process_oracle_callback, ScheduleAccounts,
  schedule,
}

pub data Transaction : Type 0 where
  initialize_tx : InitializeAccounts → Bytes → ℕ → Transaction
  create_context_tx : ContextAccounts → Bytes → Transaction
  fund_treasury_tx : FundAccounts → ℕ → Transaction
  request_gpt_tx : RequestAccounts → Transaction
  process_oracle_callback_tx : CallbackAccounts → Bytes → Transaction
  schedule_tx : ScheduleAccounts → ℕ → Transaction

unfoldable pub execute : Host → Transaction → World → Result Error World
execute h (initialize_tx a default_prompt task_queue_authority) w =
    initialize h a default_prompt task_queue_authority w
execute h (create_context_tx a agent_description) w = create_context h a agent_description w
execute h (fund_treasury_tx a lamports) w = fund_treasury h a lamports w
execute h (request_gpt_tx a) w = request_gpt h a w
execute h (process_oracle_callback_tx a response) w = process_oracle_callback h a response w
execute h (schedule_tx a task_id) w = schedule h a task_id w

-- A transaction that fails is rolled back by the runtime.
abbrev pub settle : World → Result Error World → World
settle w (ok w') = w'
settle w (err e) = w

unfoldable pub execute_all : Host → List Transaction → World → World
execute_all h [] w = w
execute_all h (t ∷ ts) w = execute_all h ts (settle w (execute h t w))
