-- ===== src/ErState/Handlers.antt =====
-- The instructions of the state account that stay within the program (init_user.rs, update_user.rs,
-- update_commit.rs, consume_random_update.rs, scheduled_update.rs and close_user.rs). What the
-- `#[account(...)]` attributes demand is written as guards in front of each handler, and Anchor writes
-- the account back after it.
use q2_26_accel_v1c70ryg0d.Prelude.{
  ℕ, ◌+◌, min, Bool, true, false, take, ◌==◌, Result, ok, ◌>>=◌, ◌>>◌, guard,
}
use q2_26_accel_v1c70ryg0d.Prelude.Words.{Bytes, u64_max, from_le_bytes}
use q2_26_accel_v1c70ryg0d.ErState.{
  Error, account_not_signer, already_in_use, constraint_seeds, constraint_address, UserAccount,
  init_space, Account, no_account, user_account, create_account, commit_accounts, World, Host,
  user_of, write,
}

-- The accounts of `InitUser`, `UpdateUser`, `UpdateCommit`, `CloseUser` and `Undelegate`.
pub record UserAccounts : Type 0 where
  pub user : ℕ
  pub user_signed : Bool
  pub account : ℕ

abbrev pub is_free : Account → Bool
is_free no_account = true
is_free _ = false

unfoldable pub initialize : Host → UserAccounts → World → Result Error World
initialize h a w = do
  guard a.user_signed account_not_signer
  guard (a.account == h.user_address a.user (h.user_bump a.user)) constraint_seeds
  guard (is_free (w.accounts a.account)) already_in_use
  w1 ← h.invoke (create_account a.user a.account init_space) w
  ok (
      write a.account
        (user_account (record { user = a.user; user_data = 0; bump = h.user_bump a.user })) w1)

-- The signer's own account: the seeds `["user", user]` with the stored bump.
unfoldable pub load_own : Host → UserAccounts → World → Result Error UserAccount
load_own h a w = do
  guard a.user_signed account_not_signer
  u ← user_of (w.accounts a.account)
  guard (a.account == h.user_address a.user u.bump) constraint_seeds
  ok u

unfoldable pub update : Host → UserAccounts → ℕ → World → Result Error World
update h a new_data w = do
  u ← load_own h a w
  ok (write a.account (user_account (record u { user_data = new_data })) w)

unfoldable pub update_commit : Host → UserAccounts → ℕ → World → Result Error World
update_commit h a new_data w = do
  u ← load_own h a w
  w1 ← h.invoke (commit_accounts a.user a.account) w
  ok (write a.account (user_account (record u { user_data = new_data })) w1)

-- `close = user`.
unfoldable pub close : Host → UserAccounts → World → Result Error World
close h a w = do u ← load_own h a w; ok (write a.account no_account w)

pub record ConsumeAccounts : Type 0 where
  pub vrf_program_identity : ℕ
  pub identity_signed : Bool
  pub account : ℕ

-- The first eight of the 32 bytes of randomness.
unfoldable pub consume_random_update :
    Host → ConsumeAccounts → (randomness : Bytes) → World → Result Error World
consume_random_update h a randomness w = do
  guard a.identity_signed account_not_signer
  u ← user_of (w.accounts a.account)
  guard (a.vrf_program_identity == h.vrf_program_identity) constraint_address
  let random_data = from_le_bytes (take 8 randomness)
  ok (write a.account (user_account (record u { user_data = random_data })) w)

-- Anybody may call it. Its only account is the user's.
unfoldable pub scheduled_update : Host → (account : ℕ) → World → Result Error World
scheduled_update h account w = do
  u ← user_of (w.accounts account)
  guard (account == h.user_address u.user u.bump) constraint_seeds
  ok (write account (user_account (record u { user_data = min (u.user_data + 1) u64_max })) w)
