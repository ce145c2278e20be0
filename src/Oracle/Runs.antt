-- ===== src/Oracle/Runs.antt =====
-- Sequences of transactions of the oracle scheduler (lib.rs).
use q2_26_accel_v1c70ryg0d.Prelude.{
  is_some, ℕ, ◌≤◌, ◌≡◌, refl, sym, ap, subst, ◌∙◌, some, List, [], ◌∷◌, length, leb, leb→le, ◌==◌,
  ok, through, via, guard-eq-ok, reject_if-eq-ok, true-false, Result-cases, inl, inr, arith,
}
use q2_26_accel_v1c70ryg0d.Prelude.Words.{Bytes}
use q2_26_accel_v1c70ryg0d.Oracle.{OracleState, World, Host, space, serialized_len}
use q2_26_accel_v1c70ryg0d.Oracle.Laws.{Records}
use q2_26_accel_v1c70ryg0d.Oracle.Handlers.{InitializeAccounts, initialize}
use q2_26_accel_v1c70ryg0d.Oracle.Program.{
  Transaction, initialize_tx, create_context_tx, fund_treasury_tx, request_gpt_tx,
  process_oracle_callback_tx, schedule_tx, execute, settle, execute_all,
}
use q2_26_accel_v1c70ryg0d.Oracle.Fits.{
  Fits, IsRunning, stored-IsRunning, create_context-IsRunning, fund_treasury-IsRunning,
  request_gpt-IsRunning, callback-IsRunning, schedule-IsRunning,
}

initialize-IsRunning :
    (h : Host) (a : InitializeAccounts) (d : Bytes) (authority : ℕ) (w w' : World)
    → initialize h a d authority w ≡ ok w'
    → IsRunning h authority w'
unfolding initialize
initialize-IsRunning h a d authority w w' e =
    let (_, e1) = guard-eq-ok a.payer_signed _ _ e in
    let (_, e2) = guard-eq-ok (a.oracle_state == h.state_address h.state_bump) _ _ e1 in
    let (_, e3) = reject_if-eq-ok (is_some w.oracle_state) _ _ e2 in
    elim (through (h.invoke _ w) _ e3) [
      | via w1 _ e4 ↦
          let (_, e5) = guard-eq-ok (a.treasury == h.treasury_address h.treasury_bump) _ _ e4 in
          elim (through (h.invoke _ w1) _ e5) [
            | via w2 _ e6 ↦
                let (short, e7) = guard-eq-ok (leb (length d) 280) _ _ e6 in
                stored-IsRunning h authority _ w2 w'
                  (record {
                    prompt = leb→le _ _ short;
                    response = omega arith;
                    counted = omega arith;
                    derived = (refl, refl);
                    authorised = refl;
                  })
                  e7
          ]
    ]

-- A second `initialize` is refused.
execute-IsRunning :
    (h : Host) (authority : ℕ) (w w' : World)
    → Records h
    → IsRunning h authority w
    → (t : Transaction) → execute h t w ≡ ok w'
    → IsRunning h authority w'
unfolding execute initialize
execute-IsRunning h authority w w' records r (initialize_tx a d k) e =
    let (_, e1) = guard-eq-ok a.payer_signed _ _ e in
    let (_, e2) = guard-eq-ok (a.oracle_state == h.state_address h.state_bump) _ _ e1 in
    let (free, _) = reject_if-eq-ok (is_some w.oracle_state) _ _ e2 in
    absurd (true-false (ap is_some (sym r.stored) ∙ free))
execute-IsRunning h authority w w' records r (create_context_tx a d) e =
    create_context-IsRunning h authority w w' records r a d e
execute-IsRunning h authority w w' records r (fund_treasury_tx a n) e =
    fund_treasury-IsRunning h authority w w' records r a n e
execute-IsRunning h authority w w' records r (request_gpt_tx a) e =
    request_gpt-IsRunning h authority w w' records r a e
execute-IsRunning h authority w w' records r (process_oracle_callback_tx a d) e =
    callback-IsRunning h authority w w' records r a d e
execute-IsRunning h authority w w' records r (schedule_tx a id) e =
    schedule-IsRunning h authority w w' records r a id e

execute_all-IsRunning :
    (h : Host) (authority : ℕ) (ts : List Transaction) (w : World)
    → Records h
    → IsRunning h authority w
    → IsRunning h authority (execute_all h ts w)
unfolding execute_all
execute_all-IsRunning h authority [] w records r = r
execute_all-IsRunning h authority (t ∷ ts) w records r = elim (Result-cases (execute h t w)) [
  | inl (w', e) ↦
      subst (λ x. IsRunning h authority (execute_all h ts (settle w x))) (sym e)
        (execute_all-IsRunning h authority ts w' records
          (execute-IsRunning h authority w w' records r t e))
  | inr (x, e) ↦
      subst (λ y. IsRunning h authority (execute_all h ts (settle w y))) (sym e)
        (execute_all-IsRunning h authority ts w records r)
]

-- After `initialize` and any sequence of transactions, failed ones included, whoever sends them, the
-- prompt has at most 280 bytes, the last response at most 512, and the state fits the space that
-- its account was created with; the count of requests fits 64 bits, and the bumps and the authority
-- are those of `initialize`. Laws: Records.
pub execute_all-Fits :
    (h : Host) (a : InitializeAccounts) (d : Bytes) (authority : ℕ) (ts : List Transaction)
    (w w' : World)
    → Records h
    → initialize h a d authority w ≡ ok w'
    → (s : OracleState) × ((execute_all h ts w').oracle_state ≡ some s)
      × Fits h authority s
      × (serialized_len s ≤ space)
execute_all-Fits h a d authority ts w w' records e =
    let r =
      execute_all-IsRunning h authority ts w' records
        (initialize-IsRunning h a d authority w w' e) in
    (r.state, r.stored, r.fits, omega (arith, r.fits.prompt, r.fits.response))
