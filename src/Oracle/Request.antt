-- ===== src/Oracle/Request.antt =====
-- Asking the oracle, now or by a task (instructions/request_gpt.rs and schedule.rs of the oracle
-- scheduler).
use q2_26_accel_v1c70ryg0d.Prelude.{
  ℕ, ◌+◌, ◌≡◌, ◌≢◌, ap, ◌∙◌, min, true, some, [], ◌∷◌, take, ◌==◌, not, ok, through, via,
  guard-eq-ok, arith,
}
use q2_26_accel_v1c70ryg0d.Prelude.Words.{u64_max}
use q2_26_accel_v1c70ryg0d.Oracle.{
  OracleState, interact_with_llm, queue_task, World, Host, load_state,
}
use q2_26_accel_v1c70ryg0d.Oracle.Laws.{Records}
use q2_26_accel_v1c70ryg0d.Oracle.Handlers.{
  RequestAccounts, check_request, callback_accounts, ask, request_gpt, ScheduleAccounts,
  request_instruction,
}
use q2_26_accel_v1c70ryg0d.Oracle.Fits.{load_state_lem, store_state_lem}

-- A request that was sent to the oracle.
pub record IsRequested (h : Host) (a : RequestAccounts) (w w' : World) : Type 0 where
  pub state : OracleState
  pub stored : w.oracle_state ≡ some state
  pub authorised :
      (a.authority_signed ≡ true) × (a.task_queue_authority ≡ state.task_queue_authority)
  pub of_context :
      (a.llm_context ≡ state.llm_context)
      × (state.llm_context ≢ h.default_key)
      × (h.is_context a.llm_context ≡ true)
  pub by_treasury : a.treasury ≡ h.treasury_address state.treasury_bump
  pub asked :
      w'.sent
      ≡ interact_with_llm a.treasury a.treasury
          (h.interaction_address a.treasury a.llm_context)
          state.llm_context
          state.default_prompt
          h.program_id
          (take 8 (h.process_oracle_callback_data []))
          (callback_accounts a)
        ∷ w.sent
  pub counted :
      w'.oracle_state ≡ some (record state { requests = min (state.requests + 1) u64_max })

-- A request succeeds only with the signature of the stored authority and on the stored context of the
-- oracle, which is not the default key. It makes one call: the oracle is asked the stored prompt for
-- the interaction account of the treasury and the context, paid and signed by the treasury. The
-- count goes up by one, at most to the largest word of 64 bits, and nothing else of the state
-- changes. Laws: Records.
pub request_gpt-IsRequested :
    (h : Host) (a : RequestAccounts) (w w' : World)
    → Records h
    → request_gpt h a w ≡ ok w'
    → IsRequested h a w w'
unfolding request_gpt ask check_request
request_gpt-IsRequested h a w w' records e = elim (through (load_state w) _ e) [
  | via s load e1 ↦
      let (context, e2) = guard-eq-ok (h.is_context a.llm_context) _ _ e1 in
      let (signed, e3) = guard-eq-ok a.authority_signed _ _ e2 in
      elim (through (check_request h a s) _ e3) [
        | via _ checked e4 ↦
            let (live, e5) = guard-eq-ok (not (s.llm_context == h.default_key)) _ _ e4 in
            elim (through (h.invoke _ w) _ e5) [
              | via w1 sent e6 ↦
                  let left = store_state_lem _ w1 w' e6 in
                  let call = records _ w w1 sent in
                  let treasury : a.treasury ≡ h.treasury_address s.treasury_bump =
                    ground (arith, checked) in
                  let place : a.interaction ≡ h.interaction_address a.treasury a.llm_context =
                    ground (arith, checked) in
                  let same : a.llm_context ≡ s.llm_context = ground (arith, checked) in
                  record {
                    state = s;
                    stored = load_state_lem w s load;
                    authorised = (signed, ground (arith, checked));
                    of_context = (same, ground (arith, live), context);
                    by_treasury = treasury;
                    asked =
                        ap (λ v. v.sent) left
                        ∙ ap (λ v. v.sent) call
                        ∙ ground (arith, treasury, place, same);
                    counted = ap (λ v. v.oracle_state) left;
                  }
            ]
      ]
]

-- The accounts that a queued task hands to `request_gpt`.
abbrev pub task_accounts : ScheduleAccounts → RequestAccounts
task_accounts a = record {
  oracle_state = a.oracle_state;
  treasury = a.treasury;
  interaction = a.interaction;
  llm_context = a.llm_context;
  task_queue_authority = a.task_queue_authority;
  authority_signed = true;
}

pub record IsScheduled (h : Host) (a : ScheduleAccounts) (id : ℕ) (w w' : World) : Type 0 where
  pub state : OracleState
  pub stored : w'.oracle_state ≡ some state
  pub unchanged : w'.oracle_state ≡ w.oracle_state
  pub transaction : ℕ
  pub compiled : h.compile_transaction (request_instruction h a ∷ []) ≡ some transaction
  pub queued :
      w'.sent
      ≡ queue_task a.payer a.queue_authority a.queue_authority a.task_queue a.task_queue_authority
          a.task transaction 1000001 1 id
        ∷ w.sent
  pub accepted : request_gpt h (task_accounts a) w' ≡ ask h (task_accounts a) state w'
