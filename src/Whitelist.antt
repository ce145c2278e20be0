-- ===== src/Whitelist.antt =====
-- The vault of the whitelist transfer hook:
-- whitelist_transfer_hook_q2/programs/whitelist-transfer-hook-q2/src/state.rs and the handlers in
-- src/instructions. Keys are numbers: they are only compared. What the `#[account(...)]` attributes
-- demand is written as guards in front of the handler, in the order of the fields.
pub mod Entries
pub mod Map
pub mod Hook
pub mod Setup
pub mod Ready
pub mod Program
pub mod Kept
mod Tests
use mathlib.Core.Option
use q2_26_accel_v1c70ryg0d.Prelude.{
  ℕ, ◌+◌, ◌*◌, Bool, true, false, ◌||◌, not, Option, none, some, List, [], ◌∷◌, ◌++◌, length, ltb,
  leb, ◌==◌, if◌then◌else◌, Result, ok, err, ◌>>=◌, ◌>>◌, guard, ok_or,
}

pub record WhitelistEntry : Type 0 where
  pub user : ℕ
  pub amount : ℕ

pub record Vault : Type 0 where
  pub admin : ℕ
  pub mint : ℕ
  pub vault_token_account : ℕ
  pub whitelist : List WhitelistEntry
  pub bump : ℕ
  pub mint_bump : ℕ
  pub extra_account_meta_bump : ℕ

pub data VaultError : Type 0 where
  invalid_amount not_whitelisted amount_exceeds_whitelist : VaultError
  whitelist_full invalid_vault_interaction : VaultError
  -- Anchor's own refusals: a `seeds`, a `has_one` and a `token::mint` constraint, and `unpack`.
  constraint_seeds constraint_has_one constraint_token_mint invalid_account_data : VaultError
  constraint_token_owner constraint_associated account_owned_by_wrong_program : VaultError
  already_in_use panicked : VaultError
  -- The error of another program.
  foreign : ℕ → VaultError

abbrev pub max_whitelist_entries : ℕ
max_whitelist_entries = 16

abbrev pub entry_len : ℕ
entry_len = 32 + 8

-- `Vault::LEN`
abbrev pub vault_len : ℕ
vault_len = 32 + 32 + 32 + 4 + max_whitelist_entries * entry_len + 3

-- The bytes that Borsh writes for a vault: three keys, a length, the entries, three bumps.
abbrev pub serialized_len : Vault → ℕ
serialized_len v = 32 + 32 + 32 + 4 + length v.whitelist * entry_len + 3

-- `whitelist.iter().find(|entry| entry.user == user)`
pub find : ℕ → List WhitelistEntry → Option WhitelistEntry
find user [] = none
find user (e ∷ es) = if e.user == user then some e else find user es

-- The write through `iter_mut().find(..)`: the first entry of the user, `none` if there is none.
pub update_first : ℕ → ℕ → List WhitelistEntry → Option (List WhitelistEntry)
update_first user amount [] = none
update_first user amount (e ∷ es) =
    if e.user == user
    then some (record e { amount = amount } ∷ es)
    else Option.map (◌∷◌ e) (update_first user amount es)

-- `position(..)` and `remove(position)` in one walk: the first entry of the user goes.
pub remove_first : ℕ → List WhitelistEntry → Option (List WhitelistEntry)
remove_first user [] = none
remove_first user (e ∷ es) =
    if e.user == user then some es else Option.map (◌∷◌ e) (remove_first user es)

pub assert_allowed : Vault → ℕ → ℕ → Result VaultError (Unit {0})
unfolding find
assert_allowed v user amount = do
  guard (ltb 0 amount) invalid_amount
  entry ← ok_or (find user v.whitelist) not_whitelisted
  guard (leb amount entry.amount) amount_exceeds_whitelist

push_entry : Vault → ℕ → ℕ → Result VaultError Vault
push_entry v user amount = do
  guard (ltb (length v.whitelist) max_whitelist_entries) whitelist_full
  ok (record v { whitelist = v.whitelist ++ record { user = user; amount = amount } ∷ [] })

pub upsert_whitelist_entry : Vault → ℕ → ℕ → Result VaultError Vault
unfolding push_entry update_first
upsert_whitelist_entry v user amount = do
  guard (ltb 0 amount) invalid_amount
  elim (update_first user amount v.whitelist) [
    | some es ↦ ok (record v { whitelist = es })
    | none ↦ push_entry v user amount
  ]

pub remove_whitelist_entry : Vault → ℕ → Result VaultError Vault
unfolding remove_first
remove_whitelist_entry v user = do
  es ← ok_or (remove_first user v.whitelist) not_whitelisted
  ok (record v { whitelist = es })

-- The accounts of `AddToWhitelist` and `RemoveFromWhitelist`. `vault_address` is what the seeds
-- `["vault"]` with the stored bump give; the signature of `admin` is checked by the runtime.
pub record AdminAccounts : Type 0 where
  pub signer : ℕ
  pub vault_key : ℕ
  pub vault_address : ℕ → ℕ

abbrev pub check_admin : AdminAccounts → Vault → Result VaultError (Unit {0})
check_admin a v = do
  guard (a.vault_key == a.vault_address v.bump) constraint_seeds
  guard (v.admin == a.signer) constraint_has_one

pub add_to_whitelist : AdminAccounts → Vault → ℕ → ℕ → Result VaultError Vault
add_to_whitelist a v user amount = do check_admin a v; upsert_whitelist_entry v user amount

pub remove_from_whitelist : AdminAccounts → Vault → ℕ → Result VaultError Vault
remove_from_whitelist a v user = do check_admin a v; remove_whitelist_entry v user

pub record VaultBumps : Type 0 where
  pub vault : ℕ
  pub mint : ℕ
  pub extra_account_meta_list : ℕ

-- `InitializeVault::initialize_vault`, the part that writes the vault.
pub initialize_vault : ℕ → ℕ → ℕ → VaultBumps → Vault
initialize_vault admin mint vault_token_account bumps = record {
  admin = admin;
  mint = mint;
  vault_token_account = vault_token_account;
  whitelist = [];
  bump = bumps.vault;
  mint_bump = bumps.mint;
  extra_account_meta_bump = bumps.extra_account_meta_list;
}

pub record TokenAccount : Type 0 where
  pub key : ℕ
  pub token_mint : ℕ
  pub owner : ℕ

-- The accounts of `TransferHook`. `transferring` is the flag of the source's `TransferHookAccount`
-- extension, `none` where unpacking the account or the extension fails.
pub record HookAccounts : Type 0 where
  pub source : TokenAccount
  pub mint_key : ℕ
  pub destination : TokenAccount
  pub meta_list_key : ℕ
  pub meta_list_address : ℕ → ℕ
  pub hook_vault_key : ℕ
  pub hook_vault_address : ℕ → ℕ
  pub transferring : Option Bool

pub check_is_transferring : HookAccounts → Result VaultError (Unit {0})
check_is_transferring a = do
  flag ← ok_or a.transferring invalid_account_data
  guard flag invalid_vault_interaction

-- Who interacts with the vault: the other side of the transfer.
pub interacting_user : HookAccounts → Vault → Result VaultError ℕ
interacting_user a v =
    if a.destination.key == v.vault_token_account
    then ok a.source.owner
    else if a.source.key == v.vault_token_account
    then ok a.destination.owner
    else err invalid_vault_interaction

abbrev pub check_hook_accounts : HookAccounts → Vault → Result VaultError (Unit {0})
check_hook_accounts a v = do
  guard (a.source.token_mint == a.mint_key) constraint_token_mint
  guard (a.destination.token_mint == a.mint_key) constraint_token_mint
  guard (a.meta_list_key == a.meta_list_address a.mint_key) constraint_seeds
  guard (a.hook_vault_key == a.hook_vault_address v.bump) constraint_seeds
  guard (v.mint == a.mint_key) constraint_has_one
  guard (v.vault_token_account == a.source.key || v.vault_token_account == a.destination.key)
      invalid_vault_interaction

pub transfer_hook : HookAccounts → Vault → ℕ → Result VaultError (Unit {0})
unfolding check_is_transferring interacting_user
transfer_hook a v amount = do
  check_hook_accounts a v
  check_is_transferring a
  user ← interacting_user a v
  assert_allowed v user amount
