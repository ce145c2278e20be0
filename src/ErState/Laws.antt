-- ===== src/ErState/Laws.antt =====
-- What the other programs are documented to do with the calls of the state account.
use q2_26_accel_v1c70ryg0d.Prelude.{◌≡◌, ◌∷◌, ok}
use q2_26_accel_v1c70ryg0d.ErState.{
  delegated_account, Call, create_account, commit_accounts, commit_and_undelegate_accounts,
  delegate_account, request_randomness, queue_task, World, Host, write,
}

-- Delegating an account, or giving it back from the rollup, hands it to the delegation program. No
-- other call changes an account of the program.
abbrev pub hand_over : Call → World → World
hand_over (commit_and_undelegate_accounts payer key) w = write key delegated_account w
hand_over (delegate_account payer key validator seed) w = write key delegated_account w
hand_over (create_account payer key space) w = w
hand_over (commit_accounts payer key) w = w
hand_over (request_randomness payer queue callback discriminator seed metas) w = w
hand_over (queue_task payer q signer task_queue authority task transaction reward free id) w = w

abbrev pub Performs : Host → Type 0
Performs h =
    (c : Call) (w w' : World)
    → h.invoke c w ≡ ok w'
    → w' ≡ record (hand_over c w) { sent = c ∷ w.sent }
