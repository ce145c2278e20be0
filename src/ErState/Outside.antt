-- ===== src/ErState/Outside.antt =====
-- The instructions of the state account that only call other programs (delegate.rs, undelegate.rs,
-- request_random_update.rs and schedule_tuktuk_update.rs).
use q2_26_accel_v1c70ryg0d.Prelude.{
  ℕ, Bool, true, false, [], ◌∷◌, replicate, ◌==◌, Result, ok_or, ◌>>=◌, ◌>>◌, guard,
}
use q2_26_accel_v1c70ryg0d.ErState.{
  Error, account_not_signer, constraint_seeds, constraint_has_one, constraint_address, panicked,
  Instruction, Call, commit_and_undelegate_accounts, delegate_account, request_randomness,
  queue_task, World, Host, user_of,
}
use q2_26_accel_v1c70ryg0d.ErState.Handlers.{UserAccounts, load_own}

unfoldable pub delegate : Host → UserAccounts → (validator : ℕ) → World → Result Error World
delegate h a validator w = do
  u ← load_own h a w
  h.invoke (delegate_account a.user a.account validator a.user) w

unfoldable pub undelegate : Host → UserAccounts → World → Result Error World
undelegate h a w = do
  u ← load_own h a w
  h.invoke (commit_and_undelegate_accounts a.user a.account) w

unfoldable pub build_request_randomness_ix :
    Host → (payer user_account oracle_queue client_seed : ℕ) → Call
build_request_randomness_ix h payer user_account oracle_queue client_seed =
    request_randomness payer oracle_queue h.program_id h.consume_random_update_discriminator
      (replicate 32 client_seed)
      (record { pubkey = user_account; is_signer = false; is_writable = true } ∷ [])

-- The two request instructions, on the queue that each one's attribute names.
unfoldable pub request_on :
    Host → (queue : ℕ) → UserAccounts → (oracle_queue client_seed : ℕ) → World → Result Error World
request_on h queue a oracle_queue client_seed w = do
  guard a.user_signed account_not_signer
  u ← user_of (w.accounts a.account)
  guard (a.account == h.user_address a.user u.bump) constraint_seeds
  guard (u.user == a.user) constraint_has_one
  guard (oracle_queue == queue) constraint_address
  h.invoke (build_request_randomness_ix h a.user a.account oracle_queue client_seed) w

unfoldable pub request_random_update :
    Host → UserAccounts → (oracle_queue client_seed : ℕ) → World → Result Error World
request_random_update h a oracle_queue client_seed w =
    request_on h h.default_queue a oracle_queue client_seed w

unfoldable pub request_random_update_er :
    Host → UserAccounts → (oracle_queue client_seed : ℕ) → World → Result Error World
request_random_update_er h a oracle_queue client_seed w =
    request_on h h.default_ephemeral_queue a oracle_queue client_seed w

pub record ScheduleAccounts : Type 0 where
  pub payer : ℕ
  pub payer_signed : Bool
  pub account : ℕ
  pub task_queue : ℕ
  pub task_queue_authority : ℕ
  pub task : ℕ
  pub queue_authority : ℕ

-- The instruction that the task runs: `scheduled_update` on the account.
unfoldable pub update_instruction : Host → ℕ → Instruction
update_instruction h account = record {
  program_id = h.program_id;
  accounts = record { pubkey = account; is_signer = false; is_writable = true } ∷ [];
  instruction_data = h.scheduled_update_data;
}

-- `unwrap` panics where the transaction cannot be compiled.
unfoldable pub schedule_tuktuk_update :
    Host → ScheduleAccounts → (task_id : ℕ) → World → Result Error World
schedule_tuktuk_update h a task_id w = do
  guard a.payer_signed account_not_signer
  u ← user_of (w.accounts a.account)
  guard (a.account == h.user_address u.user u.bump) constraint_seeds
  guard (a.queue_authority == h.queue_authority_address h.queue_authority_bump) constraint_seeds
  compiled_tx ← ok_or (h.compile_transaction (update_instruction h a.account ∷ [])) panicked
  h.invoke
      (queue_task a.payer a.queue_authority (h.queue_authority_address h.queue_authority_bump)
        a.task_queue a.task_queue_authority a.task compiled_tx 1000001 0 task_id)
      w
