-- ===== src/Oracle/Tests.antt =====
-- Runs of the oracle scheduler: set up, a context, a scheduled request, a request and its answer.
use q2_26_accel_v1c70ryg0d.Prelude.{
  ◌+◌, ◌*◌, ◌≡◌, ◌≤◌, refl, true, none, some, [], ◌∷◌, ok, ◌==◌, if◌then◌else◌,
}
use q2_26_accel_v1c70ryg0d.Oracle.{OracleState, World, Host, space, serialized_len, store_state}
use q2_26_accel_v1c70ryg0d.Oracle.Laws.{Records}
use q2_26_accel_v1c70ryg0d.Oracle.Handlers.{
  InitializeAccounts, initialize, ContextAccounts, create_context, RequestAccounts, check_request,
  ask, request_gpt, CallbackAccounts, ScheduleAccounts, schedule,
}
use q2_26_accel_v1c70ryg0d.Oracle.Program.{
  create_context_tx, request_gpt_tx, process_oracle_callback_tx, settle, execute_all,
}
use q2_26_accel_v1c70ryg0d.Oracle.Fits.{Fits}
use q2_26_accel_v1c70ryg0d.Oracle.Runs.{execute_all-Fits}
use q2_26_accel_v1c70ryg0d.Oracle.Request.{IsRequested, request_gpt-IsRequested}

abbrev host : Host
host = record {
  program_id = 1;
  system_program = 0;
  oracle_program = 2;
  default_key = 0;
  state_address = λ bump. 10;
  state_bump = 255;
  treasury_address = λ bump. 11;
  treasury_bump = 254;
  queue_authority_address = λ bump. 12;
  queue_authority_bump = 253;
  counter_address = 20;
  context_address = λ count. 100 + count;
  interaction_address = λ treasury context. 1000 * treasury + context;
  identity_address = 21;
  is_context = λ key. key == 105;
  counter = λ key. if key == 20 then some 5 else none;
  request_gpt_data = 1 ∷ 2 ∷ 3 ∷ 4 ∷ 5 ∷ 6 ∷ 7 ∷ 8 ∷ [];
  process_oracle_callback_data =
      λ response. 9 ∷ 9 ∷ 9 ∷ 9 ∷ 9 ∷ 9 ∷ 9 ∷ 9 ∷ 0 ∷ 0 ∷ 0 ∷ 0 ∷ response;
  compile_transaction = λ instructions. some 77;
  invoke = λ c w. ok (record w { sent = c ∷ w.sent });
}

host-Records : Records host
host-Records c w w' h = cc

abbrev empty : World
empty = record { oracle_state = none; sent = [] }

abbrev set_up : InitializeAccounts
set_up = record { payer = 3; payer_signed = true; oracle_state = 10; treasury = 11 }

abbrev context : ContextAccounts
context = record {
  payer = 3;
  payer_signed = true;
  oracle_state = 10;
  oracle_counter = 20;
  llm_context = 105;
}

abbrev asking : RequestAccounts
asking = record {
  oracle_state = 10;
  treasury = 11;
  interaction = 11105;
  llm_context = 105;
  task_queue_authority = 7;
  authority_signed = true;
}

abbrev scheduling : ScheduleAccounts
scheduling = record {
  payer = 3;
  payer_signed = true;
  oracle_state = 10;
  treasury = 11;
  llm_context = 105;
  interaction = 11105;
  task_queue = 30;
  task_queue_authority = 7;
  task = 31;
  queue_authority = 12;
}

abbrev answering : CallbackAccounts
answering = record { identity = 21; identity_signed = true; oracle_state = 10 }

initialized : World
initialized = settle empty (initialize host set_up (104 ∷ 105 ∷ []) 7 empty)

ready : World
ready = settle initialized (create_context host context (97 ∷ []) initialized)

asked : World
asked = settle ready (request_gpt host asking ready)

scheduled : World
scheduled = settle ready (schedule host scheduling 4 ready)

initialize_runs : initialize host set_up (104 ∷ 105 ∷ []) 7 empty ≡ ok initialized
unfolding initialized initialize store_state
initialize_runs = refl

request_runs : request_gpt host asking ready ≡ ok asked
unfolding initialized ready asked initialize store_state create_context request_gpt ask
    check_request
request_runs = refl

execute_all-Fits_example :
    (s : OracleState) × ((execute_all host
        (create_context_tx context (97 ∷ [])
          ∷ request_gpt_tx asking
          ∷ process_oracle_callback_tx answering (98 ∷ [])
          ∷ [])
        initialized).oracle_state
      ≡ some s)
    × Fits host 7 s
    × (serialized_len s ≤ space)
execute_all-Fits_example =
    execute_all-Fits host set_up (104 ∷ 105 ∷ []) 7
      (create_context_tx context (97 ∷ [])
        ∷ request_gpt_tx asking
        ∷ process_oracle_callback_tx answering (98 ∷ [])
        ∷ [])
      empty initialized host-Records initialize_runs

request_gpt-IsRequested_example : IsRequested host asking ready asked
request_gpt-IsRequested_example =
    request_gpt-IsRequested host asking ready asked host-Records request_runs
