-- ===== src/Oracle/Handlers.antt =====
-- The instructions of the oracle scheduler (src/instructions). What the `#[account(...)]` attributes
-- demand is written as guards in front of each handler.
use q2_26_accel_v1c70ryg0d.Prelude.{
  is_some, ℕ, ◌+◌, min, Bool, true, false, not, List, [], ◌∷◌, length, take, ltb, leb, ◌==◌, Result,
  ok_or, ◌>>=◌, ◌>>◌, guard, reject_if,
}
use q2_26_accel_v1c70ryg0d.Prelude.Words.{Bytes, u64_max}
use q2_26_accel_v1c70ryg0d.Oracle.{
  Error, prompt_too_long, response_too_long, context_not_initialized, task_compilation_failed,
  invalid_funding_amount, account_not_signer, account_owned_by_wrong_program, already_in_use,
  constraint_seeds, constraint_address, OracleState, space, AccountMeta, Instruction,
  create_account, create_llm_context, transfer, interact_with_llm, queue_task, World, Host,
  load_state, store_state,
}

pub record InitializeAccounts : Type 0 where
  pub payer : ℕ
  pub payer_signed : Bool
  pub oracle_state : ℕ
  pub treasury : ℕ

unfoldable pub initialize :
    Host → InitializeAccounts → Bytes → (task_queue_authority : ℕ) → World → Result Error World
initialize h a default_prompt task_queue_authority w = do
  guard a.payer_signed account_not_signer
  guard (a.oracle_state == h.state_address h.state_bump) constraint_seeds
  reject_if (is_some w.oracle_state) already_in_use
  w1 ← h.invoke (create_account a.payer a.oracle_state space h.program_id) w
  guard (a.treasury == h.treasury_address h.treasury_bump) constraint_seeds
  w2 ← h.invoke (create_account a.payer a.treasury 0 h.system_program) w1
  guard (leb (length default_prompt) 280) prompt_too_long
  store_state
      (record {
        bump = h.state_bump;
        treasury_bump = h.treasury_bump;
        requests = 0;
        llm_context = h.default_key;
        task_queue_authority = task_queue_authority;
        default_prompt = default_prompt;
        last_response = [];
      })
      w2

pub record ContextAccounts : Type 0 where
  pub payer : ℕ
  pub payer_signed : Bool
  pub oracle_state : ℕ
  pub oracle_counter : ℕ
  pub llm_context : ℕ

unfoldable pub create_context : Host → ContextAccounts → Bytes → World → Result Error World
create_context h a agent_description w = do
  guard a.payer_signed account_not_signer
  s ← load_state w
  count ← ok_or (h.counter a.oracle_counter) account_owned_by_wrong_program
  guard (a.oracle_state == h.state_address s.bump) constraint_seeds
  guard (a.oracle_counter == h.counter_address) constraint_seeds
  guard (a.llm_context == h.context_address count) constraint_seeds
  guard (leb (length agent_description) 280) prompt_too_long
  w1 ← h.invoke (create_llm_context a.payer a.llm_context a.oracle_counter agent_description) w
  store_state (record s { llm_context = a.llm_context; default_prompt = agent_description }) w1

pub record FundAccounts : Type 0 where
  pub payer : ℕ
  pub payer_signed : Bool
  pub treasury : ℕ

unfoldable pub fund_treasury : Host → FundAccounts → ℕ → World → Result Error World
fund_treasury h a lamports w = do
  guard a.payer_signed account_not_signer
  guard (a.treasury == h.treasury_address h.treasury_bump) constraint_seeds
  guard (ltb 0 lamports) invalid_funding_amount
  h.invoke (transfer a.payer a.treasury lamports) w

pub record RequestAccounts : Type 0 where
  pub oracle_state : ℕ
  pub treasury : ℕ
  pub interaction : ℕ
  pub llm_context : ℕ
  pub task_queue_authority : ℕ
  pub authority_signed : Bool

unfoldable pub check_request : Host → RequestAccounts → OracleState → Result Error (Unit {0})
check_request h a s = do
  guard (a.oracle_state == h.state_address s.bump) constraint_seeds
  guard (a.treasury == h.treasury_address s.treasury_bump) constraint_seeds
  guard (a.interaction == h.interaction_address a.treasury a.llm_context) constraint_seeds
  guard (a.llm_context == s.llm_context) constraint_address
  guard (a.task_queue_authority == s.task_queue_authority) constraint_address

-- The account that the callback writes.
abbrev pub callback_accounts : RequestAccounts → List AccountMeta
callback_accounts a = record { pubkey = a.oracle_state; is_signer = false; is_writable = true } ∷ []

-- The handler: the call of the oracle, paid and signed by the treasury, then the count.
unfoldable pub ask : Host → RequestAccounts → OracleState → World → Result Error World
ask h a s w = do
  guard (not (s.llm_context == h.default_key)) context_not_initialized
  w1 ←
      h.invoke
        (interact_with_llm a.treasury (h.treasury_address s.treasury_bump) a.interaction
          a.llm_context s.default_prompt h.program_id (take 8 (h.process_oracle_callback_data []))
          (callback_accounts a))
        w
  store_state (record s { requests = min (s.requests + 1) u64_max }) w1

unfoldable pub request_gpt : Host → RequestAccounts → World → Result Error World
request_gpt h a w = do
  s ← load_state w
  guard (h.is_context a.llm_context) account_owned_by_wrong_program
  guard a.authority_signed account_not_signer
  check_request h a s
  ask h a s w

pub record CallbackAccounts : Type 0 where
  pub identity : ℕ
  pub identity_signed : Bool
  pub oracle_state : ℕ

unfoldable pub process_oracle_callback :
    Host → CallbackAccounts → Bytes → World → Result Error World
process_oracle_callback h a response w = do
  guard a.identity_signed account_not_signer
  s ← load_state w
  guard (a.identity == h.identity_address) constraint_seeds
  guard (a.oracle_state == h.state_address s.bump) constraint_seeds
  guard (leb (length response) 512) response_too_long
  store_state (record s { last_response = response }) w

pub record ScheduleAccounts : Type 0 where
  pub payer : ℕ
  pub payer_signed : Bool
  pub oracle_state : ℕ
  pub treasury : ℕ
  pub llm_context : ℕ
  pub interaction : ℕ
  pub task_queue : ℕ
  pub task_queue_authority : ℕ
  pub task : ℕ
  pub queue_authority : ℕ

unfoldable pub check_schedule : Host → ScheduleAccounts → OracleState → Result Error (Unit {0})
check_schedule h a s = do
  guard (a.oracle_state == h.state_address s.bump) constraint_seeds
  guard (a.treasury == h.treasury_address s.treasury_bump) constraint_seeds
  guard (a.llm_context == s.llm_context) constraint_address
  guard (a.interaction == h.interaction_address a.treasury a.llm_context) constraint_seeds
  guard (a.task_queue_authority == s.task_queue_authority) constraint_address
  guard (a.queue_authority == h.queue_authority_address h.queue_authority_bump) constraint_seeds

abbrev pub meta : ℕ → Bool → Bool → AccountMeta
meta key signs writes = record { pubkey = key; is_signer = signs; is_writable = writes }

-- The instruction that the task runs: `request_gpt` on these accounts.
unfoldable pub request_instruction : Host → ScheduleAccounts → Instruction
request_instruction h a = record {
  program_id = h.program_id;
  accounts =
      meta a.oracle_state false true
      ∷ meta a.treasury false true
      ∷ meta a.interaction false true
      ∷ meta a.llm_context false true
      ∷ meta a.task_queue_authority true false
      ∷ meta h.system_program false false
      ∷ meta h.oracle_program false false
      ∷ [];
  instruction_data = h.request_gpt_data;
}

-- The handler.
unfoldable pub queue_request :
    Host → ScheduleAccounts → OracleState → (task_id : ℕ) → World → Result Error World
queue_request h a s task_id w = do
  guard (not (s.llm_context == h.default_key)) context_not_initialized
  compiled_tx ← ok_or (h.compile_transaction (request_instruction h a ∷ [])) task_compilation_failed
  h.invoke
      (queue_task a.payer a.queue_authority (h.queue_authority_address h.queue_authority_bump)
        a.task_queue a.task_queue_authority a.task compiled_tx 1000001 1 task_id)
      w

unfoldable pub schedule : Host → ScheduleAccounts → ℕ → World → Result Error World
schedule h a task_id w = do
  guard a.payer_signed account_not_signer
  s ← load_state w
  guard (h.is_context a.llm_context) account_owned_by_wrong_program
  check_schedule h a s
  w1 ← queue_request h a s task_id w
  store_state s w1
