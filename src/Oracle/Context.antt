-- ===== src/Oracle/Context.antt =====
-- The error for a context that is not initialized (instructions/request_gpt.rs and schedule.rs).
use q2_26_accel_v1c70ryg0d.Prelude.{
  ℕ, ◌≡◌, ◌≢◌, ap, ◌∙◌, [], ◌∷◌, ◌==◌, not, ok, err, ok_or, guard, bind_avoids, guard_avoids, arith,
}
use q2_26_accel_v1c70ryg0d.Oracle.{
  task_compilation_failed, context_not_initialized, account_not_signer,
  account_owned_by_wrong_program, OracleState, Call, World, Host, load_state, store_state,
}
use q2_26_accel_v1c70ryg0d.Oracle.Laws.{DefaultIsNoContext, FailsAsForeign}
use q2_26_accel_v1c70ryg0d.Oracle.Handlers.{
  RequestAccounts, check_request, ask, request_gpt, ScheduleAccounts, check_schedule,
  request_instruction, queue_request, schedule,
}

load_avoids : (w : World) → load_state w ≢ err context_not_initialized
load_avoids w e = ground arith

invoke_avoids :
    (h : Host) (c : Call) (w : World)
    → FailsAsForeign h
    → h.invoke c w ≢ err context_not_initialized
invoke_avoids h c w foreign_only e = let (n, q) = foreign_only c w _ e in cc

store_avoids : (s : OracleState) (w : World) → store_state s w ≢ err context_not_initialized
unfolding store_state
store_avoids s w e = ground arith

-- A stored context that is an account of the oracle is not the default key.
is_live :
    (h : Host) (key : ℕ) (s : OracleState)
    → DefaultIsNoContext h
    → guard (h.is_context key) account_owned_by_wrong_program ≡ ok tt
    → key ≡ s.llm_context
    → ¬ (
        guard (not (s.llm_context == h.default_key)) context_not_initialized
        ≡ err context_not_initialized)
is_live h key s none_there context same q =
    let default : s.llm_context ≡ h.default_key = ground (arith, q) in
    let none_here = ap h.is_context (same ∙ default) ∙ none_there in
    ground (arith, context, none_here)

request_avoids :
    (h : Host) (a : RequestAccounts) (w : World)
    → DefaultIsNoContext h
    → FailsAsForeign h
    → request_gpt h a w ≢ err context_not_initialized
unfolding request_gpt ask check_request
request_avoids h a w none_there foreign_only = bind_avoids (load_state w) _ (load_avoids w) λ s _.
    bind_avoids (guard (h.is_context a.llm_context) account_owned_by_wrong_program) _
      (guard_avoids (h.is_context a.llm_context) (λ q. cc))
      λ _ context.
        bind_avoids (guard a.authority_signed account_not_signer) _
          (guard_avoids a.authority_signed (λ q. cc))
          λ _ _.
            bind_avoids (check_request h a s) _ (λ q. ground arith)
              λ _ checked.
                let live = is_live h a.llm_context s none_there context (ground (arith, checked)) in
                bind_avoids (guard (not (s.llm_context == h.default_key)) context_not_initialized) _
                  live
                  λ _ _.
                    bind_avoids (h.invoke _ w) _ (invoke_avoids h _ w foreign_only)
                      λ w1 _. store_avoids _ w1

queue_avoids :
    (h : Host) (a : ScheduleAccounts) (s : OracleState) (id : ℕ) (w : World)
    → FailsAsForeign h
    → ¬ (
        guard (not (s.llm_context == h.default_key)) context_not_initialized
        ≡ err context_not_initialized)
    → queue_request h a s id w ≢ err context_not_initialized
unfolding queue_request
queue_avoids h a s id w foreign_only live =
    bind_avoids (guard (not (s.llm_context == h.default_key)) context_not_initialized) _ live λ _ _.
      bind_avoids
        (ok_or (h.compile_transaction (request_instruction h a ∷ [])) task_compilation_failed) _
        (λ q. ground arith) λ tx _. invoke_avoids h _ w foreign_only

schedule_avoids :
    (h : Host) (a : ScheduleAccounts) (id : ℕ) (w : World)
    → DefaultIsNoContext h
    → FailsAsForeign h
    → schedule h a id w ≢ err context_not_initialized
unfolding schedule check_schedule
schedule_avoids h a id w none_there foreign_only =
    bind_avoids (guard a.payer_signed account_not_signer) _ (guard_avoids a.payer_signed (λ q. cc))
      λ _ _. bind_avoids (load_state w) _ (load_avoids w) λ s _.
        bind_avoids (guard (h.is_context a.llm_context) account_owned_by_wrong_program) _
          (guard_avoids (h.is_context a.llm_context) (λ q. cc))
          λ _ context.
            bind_avoids (check_schedule h a s) _ (λ q. ground arith)
              λ _ checked.
                bind_avoids (queue_request h a s id w) _
                  (queue_avoids h a s id w foreign_only
                    (is_live h a.llm_context s none_there context (ground (arith, checked))))
                  λ w1 _. store_avoids s w1

-- Neither a request nor a schedule ever answers that the context is not initialized: before one is
-- created the account of the context is refused first. Laws: DefaultIsNoContext, FailsAsForeign.
pub never_uninitialized :
    (h : Host) (w : World)
    → DefaultIsNoContext h
    → FailsAsForeign h
    → ((a : RequestAccounts) → request_gpt h a w ≢ err context_not_initialized)
      × ((a : ScheduleAccounts) (id : ℕ) → schedule h a id w ≢ err context_not_initialized)
never_uninitialized h w none_there foreign_only = (
  λ a. request_avoids h a w none_there foreign_only,
  λ a id. schedule_avoids h a id w none_there foreign_only,
)
