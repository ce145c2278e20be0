-- ===== src/ErState/Tests.antt =====
-- Runs of the state account: set up, an update, randomness, scheduled updates, and the end.
use q2_26_accel_v1c70ryg0d.Prelude.{◌+◌, ◌≡◌, refl, true, some, [], ◌∷◌, ok}
use q2_26_accel_v1c70ryg0d.Prelude.Words.{from_le_bytes}
use q2_26_accel_v1c70ryg0d.ErState.{UserAccount, no_account, user_account, World, Host}
use q2_26_accel_v1c70ryg0d.ErState.Laws.{hand_over, Performs}
use q2_26_accel_v1c70ryg0d.ErState.Handlers.{
  UserAccounts, load_own, initialize, close, ConsumeAccounts, consume_random_update,
}
use q2_26_accel_v1c70ryg0d.ErState.Outside.{ScheduleAccounts, schedule_tuktuk_update}
use q2_26_accel_v1c70ryg0d.ErState.Program.{consume_random_update_tx, execute, settle}
use q2_26_accel_v1c70ryg0d.ErState.Changes.{Change, execute-Change}

abbrev host : Host
host = record {
  program_id = 1;
  user_address = λ user bump. 1000 + user;
  user_bump = λ user. 255;
  queue_authority_address = λ bump. 12;
  queue_authority_bump = 254;
  vrf_program_identity = 20;
  default_queue = 21;
  default_ephemeral_queue = 22;
  consume_random_update_discriminator = 8 ∷ 7 ∷ [];
  scheduled_update_data = 6 ∷ 5 ∷ [];
  compile_transaction = λ instructions. some 77;
  invoke = λ c w. ok (record (hand_over c w) { sent = c ∷ w.sent });
}

host-Performs : Performs host
host-Performs c w w' h = cc

abbrev empty : World
empty = record { accounts = λ k. no_account; sent = [] }

abbrev own : UserAccounts
own = record { user = 3; user_signed = true; account = 1003 }

opened : World
opened = settle empty (initialize host own empty)

abbrev new_account : UserAccount
new_account = record { user = 3; user_data = 0; bump = 255 }

initialize_runs : initialize host own empty ≡ ok opened
unfolding opened initialize
initialize_runs = refl

shut : World
shut = settle opened (close host own opened)

close_runs : close host own opened ≡ ok shut
unfolding opened shut initialize close load_own
close_runs = refl

abbrev oracle : ConsumeAccounts
oracle = record { vrf_program_identity = 20; identity_signed = true; account = 1003 }

rolled : World
rolled =
    settle opened
      (consume_random_update host oracle (1 ∷ 2 ∷ 0 ∷ 0 ∷ 0 ∷ 0 ∷ 0 ∷ 0 ∷ 9 ∷ []) opened)

opened_account : opened.accounts 1003 ≡ user_account new_account
unfolding opened initialize
opened_account = refl

roll_runs :
    execute host (consume_random_update_tx oracle (1 ∷ 2 ∷ 0 ∷ 0 ∷ 0 ∷ 0 ∷ 0 ∷ 0 ∷ 9 ∷ [])) opened
    ≡ ok rolled
unfolding opened rolled initialize consume_random_update from_le_bytes execute
roll_runs = refl

execute-Change_example :
    Change host 1003 new_account
      (rolled.accounts 1003)
      (consume_random_update_tx oracle (1 ∷ 2 ∷ 0 ∷ 0 ∷ 0 ∷ 0 ∷ 0 ∷ 0 ∷ 9 ∷ []))
execute-Change_example =
    execute-Change host (consume_random_update_tx oracle (1 ∷ 2 ∷ 0 ∷ 0 ∷ 0 ∷ 0 ∷ 0 ∷ 0 ∷ 9 ∷ []))
      1003 new_account opened rolled host-Performs opened_account roll_runs

abbrev scheduling : ScheduleAccounts
scheduling = record {
  payer = 4;
  payer_signed = true;
  account = 1003;
  task_queue = 30;
  task_queue_authority = 31;
  task = 32;
  queue_authority = 12;
}

queued : World
queued = settle opened (schedule_tuktuk_update host scheduling 6 opened)
