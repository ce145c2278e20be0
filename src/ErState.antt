-- ===== src/ErState.antt =====
-- The state account of the ephemeral rollup example
-- (magicblock_er_example/programs/er-state-account/src): its account, and what it asks of the
-- delegation program, of the randomness oracle and of the task queue. Keys are numbers: they are only
-- compared. The programs that the types fix are left out of the accounts.
pub mod Handlers
pub mod Outside
pub mod Program
pub mod Laws
pub mod Owner
pub mod Changes
pub mod Cranks
mod Tests
use q2_26_accel_v1c70ryg0d.Prelude.{
  ℕ, ◌+◌, Bool, Option, List, ◌∷◌, ◌==◌, if◌then◌else◌, Result, ok, err,
}
use q2_26_accel_v1c70ryg0d.Prelude.Words.{Bytes}

pub data Error : Type 0 where
  -- Anchor's own refusals, and a panic.
  account_not_signer account_owned_by_wrong_program already_in_use : Error
  constraint_seeds constraint_has_one constraint_address panicked : Error
  -- The error of another program.
  foreign : ℕ → Error

pub record UserAccount : Type 0 where
  pub user : ℕ
  pub user_data : ℕ
  pub bump : ℕ

-- `UserAccount::INIT_SPACE`
abbrev pub init_space : ℕ
init_space = 32 + 8 + 1 + 8

-- What stands at an address. A delegated account belongs to the delegation program.
pub data Account : Type 0 where
  no_account delegated_account : Account
  user_account : UserAccount → Account

pub record AccountMeta : Type 0 where
  pub pubkey : ℕ
  pub is_signer : Bool
  pub is_writable : Bool

pub record Instruction : Type 0 where
  pub program_id : ℕ
  pub accounts : List AccountMeta
  pub instruction_data : Bytes

-- The calls of other programs. `signer` is the address that the signer seeds derive.
pub data Call : Type 0 where
  create_account : (payer key space : ℕ) → Call
  commit_accounts : (payer key : ℕ) → Call
  commit_and_undelegate_accounts : (payer key : ℕ) → Call
  delegate_account : (payer key validator : ℕ) → (seed : ℕ) → Call
  request_randomness :
      (payer oracle_queue callback_program : ℕ)
      → (callback_discriminator caller_seed : Bytes) → List AccountMeta
      → Call
  queue_task :
      (payer queue_authority signer task_queue task_queue_authority task : ℕ)
      → (transaction crank_reward free_tasks id : ℕ) → Call

-- The accounts of the program, and the calls that other programs have accepted, the last one first.
pub record World : Type 0 where
  pub accounts : ℕ → Account
  pub sent : List Call

-- The other programs, and the addresses that seeds derive.
pub record Host : Type 0 where
  pub program_id : ℕ
  pub user_address : (user bump : ℕ) → ℕ
  pub user_bump : (user : ℕ) → ℕ
  pub queue_authority_address : (bump : ℕ) → ℕ
  pub queue_authority_bump : ℕ
  pub vrf_program_identity : ℕ
  pub default_queue : ℕ
  pub default_ephemeral_queue : ℕ
  pub consume_random_update_discriminator : Bytes
  pub scheduled_update_data : Bytes
  pub compile_transaction : List Instruction → Option ℕ
  pub invoke : Call → World → Result Error World

-- `Account<UserAccount>`.
abbrev pub user_of : Account → Result Error UserAccount
user_of (user_account u) = ok u
user_of _ = err account_owned_by_wrong_program

abbrev pub write : ℕ → Account → World → World
write key x w = record w { accounts = λ k. if key == k then x else w.accounts k }
