-- ===== src/Oracle.antt =====
-- The oracle scheduler (solana_gpt_oracle_tuktuk/programs/solana-gpt-oracle/src): its state, and
-- what it asks of the language model's oracle, of the task queue and of the system program. Keys are
-- numbers: they are only compared. A text is its bytes. The accounts `system_program`,
-- `oracle_program` and `tuktuk_program` are fixed by their types; their keys are fields of `Host`.
pub mod Handlers
pub mod Program
pub mod Laws
pub mod Fits
pub mod Runs
pub mod Request
pub mod Callback
pub mod Context
mod Tests
use q2_26_accel_v1c70ryg0d.Prelude.{
  ℕ, ◌+◌, Bool, true, false, Option, none, some, List, [], ◌∷◌, length, leb, Result, ok, err, ◌>>=◌,
  ◌>>◌, guard,
}
use q2_26_accel_v1c70ryg0d.Prelude.Words.{Bytes}

pub data Error : Type 0 where
  prompt_too_long response_too_long context_not_initialized : Error
  task_compilation_failed invalid_funding_amount : Error
  -- Anchor's own refusals.
  account_not_signer account_owned_by_wrong_program already_in_use : Error
  constraint_seeds constraint_address account_did_not_serialize : Error
  -- The error of another program.
  foreign : ℕ → Error

pub record OracleState : Type 0 where
  pub bump : ℕ
  pub treasury_bump : ℕ
  pub requests : ℕ
  pub llm_context : ℕ
  pub task_queue_authority : ℕ
  pub default_prompt : Bytes
  pub last_response : Bytes

-- `8 + OracleState::INIT_SPACE`: the discriminator and the longest texts, each after its length.
abbrev pub space : ℕ
space = 8 + (1 + 1 + 8 + 32 + 32 + (4 + 280) + (4 + 512))

-- The bytes that Anchor writes for a state.
abbrev pub serialized_len : OracleState → ℕ
serialized_len s =
    8 + (1 + 1 + 8 + 32 + 32 + (4 + length s.default_prompt) + (4 + length s.last_response))

pub record AccountMeta : Type 0 where
  pub pubkey : ℕ
  pub is_signer : Bool
  pub is_writable : Bool

pub record Instruction : Type 0 where
  pub program_id : ℕ
  pub accounts : List AccountMeta
  pub instruction_data : Bytes

-- The calls of other programs. `signer` is the address that the signer seeds derive.
pub data Call : Type 0 where
  -- `init`.
  create_account : (payer key space owner : ℕ) → Call
  create_llm_context : (payer context counter : ℕ) → Bytes → Call
  transfer : (from to lamports : ℕ) → Call
  interact_with_llm :
      (payer signer interaction context : ℕ)
      → (prompt : Bytes) → (callback_program : ℕ) → (callback_discriminator : Bytes)
      → List AccountMeta
      → Call
  queue_task :
      (payer queue_authority signer task_queue task_queue_authority task : ℕ)
      → (transaction crank_reward free_tasks id : ℕ) → Call

-- The account of the program, and the calls that other programs have accepted, the last one first.
pub record World : Type 0 where
  pub oracle_state : Option OracleState
  pub sent : List Call

-- The other programs, and the addresses that seeds derive.
pub record Host : Type 0 where
  pub program_id : ℕ
  pub system_program : ℕ
  pub oracle_program : ℕ
  pub default_key : ℕ
  pub state_address : (bump : ℕ) → ℕ
  pub state_bump : ℕ
  pub treasury_address : (bump : ℕ) → ℕ
  pub treasury_bump : ℕ
  pub queue_authority_address : (bump : ℕ) → ℕ
  pub queue_authority_bump : ℕ
  -- Addresses of the oracle's program.
  pub counter_address : ℕ
  pub context_address : (count : ℕ) → ℕ
  pub interaction_address : (treasury context : ℕ) → ℕ
  pub identity_address : ℕ
  -- Whether a `ContextAccount` of the oracle stands at an address, and the oracle's counter.
  pub is_context : ℕ → Bool
  pub counter : ℕ → Option ℕ
  -- The first bytes of an instruction's data.
  pub request_gpt_data : Bytes
  pub process_oracle_callback_data : (response : Bytes) → Bytes
  pub compile_transaction : List Instruction → Option ℕ
  pub invoke : Call → World → Result Error World

-- `Account<OracleState>`.
abbrev pub load_state : World → Result Error OracleState
load_state w = elim w.oracle_state [ some s ↦ ok s | none ↦ err account_owned_by_wrong_program ]

-- Anchor writes the account back after the handler, into the space that it was created with.
unfoldable pub store_state : OracleState → World → Result Error World
store_state s w = do
  guard (leb (serialized_len s) space) account_did_not_serialize
  ok (record w { oracle_state = some s })
