-- ===== src/Oracle/Fits.antt =====
-- The state of the oracle scheduler always fits the space of its account
-- (state/oracle_state.rs and the instructions).
use q2_26_accel_v1c70ryg0d.Prelude.{
  ℕ, ◌+◌, ◌≤◌, ◌≡◌, sym, ap, subst, ◌∙◌, min, ok_or-eq-ok, some, some-inj, length, ltb, leb, leb→le,
  ◌==◌, not, ok, ok-inj, through, via, guard-eq-ok, arith,
}
use q2_26_accel_v1c70ryg0d.Prelude.Words.{Bytes, u64_max}
use q2_26_accel_v1c70ryg0d.Oracle.{
  OracleState, World, Host, space, serialized_len, load_state, store_state,
}
use q2_26_accel_v1c70ryg0d.Oracle.Laws.{Records}
use q2_26_accel_v1c70ryg0d.Oracle.Handlers.{
  ContextAccounts, create_context, FundAccounts, fund_treasury, RequestAccounts, check_request, ask,
  request_gpt, CallbackAccounts, process_oracle_callback, ScheduleAccounts, check_schedule,
  queue_request, schedule,
}

-- A state of a program that was initialized with an authority.
pub record Fits (h : Host) (authority : ℕ) (s : OracleState) : Type 0 where
  pub prompt : length s.default_prompt ≤ 280
  pub response : length s.last_response ≤ 512
  pub counted : s.requests ≤ u64_max
  pub derived : (s.bump ≡ h.state_bump) × (s.treasury_bump ≡ h.treasury_bump)
  pub authorised : s.task_queue_authority ≡ authority

pub record IsRunning (h : Host) (authority : ℕ) (w : World) : Type 0 where
  pub state : OracleState
  pub stored : w.oracle_state ≡ some state
  pub fits : Fits h authority state

pub load_state_lem : (w : World) (s : OracleState) → load_state w ≡ ok s → w.oracle_state ≡ some s
load_state_lem w s h = ground arith

pub store_state_lem :
    (s : OracleState) (w w' : World)
    → store_state s w ≡ ok w'
    → w' ≡ record w { oracle_state = some s }
unfolding store_state
store_state_lem s w w' h = sym (ok-inj (guard-eq-ok (leb (serialized_len s) space) _ _ h).1)

pub stored-IsRunning :
    (h : Host) (authority : ℕ) (s : OracleState) (w w' : World)
    → Fits h authority s
    → store_state s w ≡ ok w'
    → IsRunning h authority w'
stored-IsRunning h authority s w w' fits e = record {
  state = s;
  stored = ap (λ v. v.oracle_state) (store_state_lem s w w' e);
  fits = fits;
}

module _ (h : Host) (authority : ℕ) (w w' : World) (records : Records h)
    (running : IsRunning h authority w) where
  loaded : (s : OracleState) → load_state w ≡ ok s → Fits h authority s
  loaded s e =
      let same = some-inj (sym running.stored ∙ load_state_lem w s e) in
      subst (Fits h authority) same running.fits

  pub create_context-IsRunning :
      (a : ContextAccounts) (d : Bytes) → create_context h a d w ≡ ok w' → IsRunning h authority w'
  unfolding create_context
  create_context-IsRunning a d e =
      let (_, e1) = guard-eq-ok a.payer_signed _ _ e in
      elim (through (load_state w) _ e1) [
        | via s load e2 ↦
            let (count, _, e3) = ok_or-eq-ok (h.counter a.oracle_counter) _ _ e2 in
            let (_, e4) = guard-eq-ok (a.oracle_state == h.state_address s.bump) _ _ e3 in
            let (_, e5) = guard-eq-ok (a.oracle_counter == h.counter_address) _ _ e4 in
            let (_, e6) = guard-eq-ok (a.llm_context == h.context_address count) _ _ e5 in
            let (short, e7) = guard-eq-ok (leb (length d) 280) _ _ e6 in
            elim (through (h.invoke _ w) _ e7) [
              | via w1 _ e8 ↦
                  let f = loaded s load in
                  stored-IsRunning h authority
                    (record s { llm_context = a.llm_context; default_prompt = d }) w1 w'
                    (record {
                      prompt = leb→le _ _ short;
                      response = f.response;
                      counted = f.counted;
                      derived = f.derived;
                      authorised = f.authorised;
                    })
                    e8
            ]
      ]

  pub fund_treasury-IsRunning :
      (a : FundAccounts) (n : ℕ) → fund_treasury h a n w ≡ ok w' → IsRunning h authority w'
  unfolding fund_treasury
  fund_treasury-IsRunning a n e =
      let (_, e1) = guard-eq-ok a.payer_signed _ _ e in
      let (_, e2) = guard-eq-ok (a.treasury == h.treasury_address h.treasury_bump) _ _ e1 in
      let (_, e3) = guard-eq-ok (ltb 0 n) _ _ e2 in
      record {
        state = running.state;
        stored = ap (λ v. v.oracle_state) (records _ w w' e3) ∙ running.stored;
        fits = running.fits;
      }

  pub request_gpt-IsRunning :
      (a : RequestAccounts) → request_gpt h a w ≡ ok w' → IsRunning h authority w'
  unfolding request_gpt ask
  request_gpt-IsRunning a e = elim (through (load_state w) _ e) [
    | via s load e1 ↦
        let (_, e2) = guard-eq-ok (h.is_context a.llm_context) _ _ e1 in
        let (_, e3) = guard-eq-ok a.authority_signed _ _ e2 in
        elim (through (check_request h a s) _ e3) [
          | via _ _ e4 ↦
              let (_, e5) = guard-eq-ok (not (s.llm_context == h.default_key)) _ _ e4 in
              elim (through (h.invoke _ w) _ e5) [
                | via w1 _ e6 ↦
                    let f = loaded s load in
                    stored-IsRunning h authority
                      (record s { requests = min (s.requests + 1) u64_max }) w1 w'
                      (record {
                        prompt = f.prompt;
                        response = f.response;
                        counted = omega arith;
                        derived = f.derived;
                        authorised = f.authorised;
                      })
                      e6
              ]
        ]
  ]

  pub callback-IsRunning :
      (a : CallbackAccounts) (r : Bytes)
      → process_oracle_callback h a r w ≡ ok w'
      → IsRunning h authority w'
  unfolding process_oracle_callback
  callback-IsRunning a r e =
      let (_, e1) = guard-eq-ok a.identity_signed _ _ e in
      elim (through (load_state w) _ e1) [
        | via s load e2 ↦
            let (_, e3) = guard-eq-ok (a.identity == h.identity_address) _ _ e2 in
            let (_, e4) = guard-eq-ok (a.oracle_state == h.state_address s.bump) _ _ e3 in
            let (short, e5) = guard-eq-ok (leb (length r) 512) _ _ e4 in
            let f = loaded s load in
            stored-IsRunning h authority (record s { last_response = r }) w w'
              (record {
                prompt = f.prompt;
                response = leb→le _ _ short;
                counted = f.counted;
                derived = f.derived;
                authorised = f.authorised;
              })
              e5
      ]

  pub schedule-IsRunning :
      (a : ScheduleAccounts) (id : ℕ) → schedule h a id w ≡ ok w' → IsRunning h authority w'
  unfolding schedule
  schedule-IsRunning a id e =
      let (_, e1) = guard-eq-ok a.payer_signed _ _ e in
      elim (through (load_state w) _ e1) [
        | via s load e2 ↦
            let (_, e3) = guard-eq-ok (h.is_context a.llm_context) _ _ e2 in
            elim (through (check_schedule h a s) _ e3) [
              | via _ _ e4 ↦ elim (through (queue_request h a s id w) _ e4) [
                | via w1 _ e5 ↦ stored-IsRunning h authority s w1 w' (loaded s load) e5
              ]
            ]
      ]
