-- ===== src/Whitelist/Hook.antt =====
-- The transfer hook (instructions/transfer_hook.rs): which token transfers it lets through.
use q2_26_accel_v1c70ryg0d.Prelude.{
  ℕ, ◌≤◌, ◌<◌, ◌≡◌, ◌↔◌, ◌⊎◌, inl, inr, true, some, ◌==◌, if◌then◌else◌, ok, arith,
}
use q2_26_accel_v1c70ryg0d.Whitelist.{
  Vault, HookAccounts, transfer_hook, check_hook_accounts, AdminAccounts, add_to_whitelist,
  remove_from_whitelist, upsert_whitelist_entry, remove_whitelist_entry,
}
use q2_26_accel_v1c70ryg0d.Whitelist.Entries.{allowance}
use q2_26_accel_v1c70ryg0d.Whitelist.Map.{assert_allowed_iff}

-- The user whose allowance counts: the owner of the account that is not the vault's; of the source,
-- if the vault is the destination.
abbrev pub counterparty : HookAccounts → Vault → ℕ
counterparty a v =
    if a.destination.key == v.vault_token_account then a.source.owner else a.destination.owner

pub record IsAllowed (a : HookAccounts) (v : Vault) (amount : ℕ) : Type 0 where
  pub in_transfer : a.transferring ≡ some true
  pub touches_vault :
      (a.source.key ≡ v.vault_token_account) ⊎ (a.destination.key ≡ v.vault_token_account)
  pub same_mint : (a.source.token_mint ≡ v.mint) × (a.destination.token_mint ≡ v.mint)
  pub allowed :
      (n : ℕ) × (allowance (counterparty a v) v.whitelist ≡ some n) × (0 < amount) × (amount ≤ n)

-- The hook accepts a transfer only while one is under way, between accounts of the vault's mint
-- of which one is the vault's, and only for an amount within the allowance of the other side's
-- owner.
pub transfer_hook-IsAllowed :
    (a : HookAccounts) (v : Vault) (amount : ℕ)
    → transfer_hook a v amount ≡ ok tt
    → IsAllowed a v amount
unfolding transfer_hook
transfer_hook-IsAllowed a v amount h = record {
  in_transfer = ground arith;
  touches_vault = ground arith;
  same_mint = ground arith;
  allowed = (assert_allowed_iff v (counterparty a v) amount).0 (ground arith);
}

-- Where the account constraints hold, those conditions are enough.
pub IsAllowed-transfer_hook :
    (a : HookAccounts) (v : Vault) (amount : ℕ)
    → check_hook_accounts a v ≡ ok tt
    → IsAllowed a v amount
    → transfer_hook a v amount ≡ ok tt
unfolding transfer_hook
IsAllowed-transfer_hook a v amount constraints c =
    let enough = (assert_allowed_iff v (counterparty a v) amount).1 c.allowed in
    ground (arith, enough)

-- The accounts that the seeds and the vault name.
pub record AreAccounts (a : HookAccounts) (v : Vault) : Type 0 where
  pub mint_is : a.mint_key ≡ v.mint
  pub meta_list_is : a.meta_list_key ≡ a.meta_list_address a.mint_key
  pub vault_is : a.hook_vault_key ≡ a.hook_vault_address v.bump

AreAccounts-check :
    (a : HookAccounts) (v : Vault) (amount : ℕ)
    → AreAccounts a v
    → IsAllowed a v amount
    → check_hook_accounts a v ≡ ok tt
AreAccounts-check a v amount named c = elim c.touches_vault [
  | inl source ↦ ground (arith, c.same_mint, source)
  | inr destination ↦ ground (arith, c.same_mint, destination)
]

-- The hook accepts a transfer exactly when its accounts are the vault's mint and the addresses that
-- the seeds give, a transfer is under way, both token accounts are of that mint, one of them is
-- the vault's, and the amount is positive and within the allowance of the other side's owner.
pub transfer_hook_iff :
    (a : HookAccounts) (v : Vault) (amount : ℕ)
    → (transfer_hook a v amount ≡ ok tt) ↔ (AreAccounts a v × IsAllowed a v amount)
unfolding transfer_hook
transfer_hook_iff a v amount = (
  λ h. (
    record { mint_is = ground arith; meta_list_is = ground arith; vault_is = ground arith },
    transfer_hook-IsAllowed a v amount h,
  ),
  λ (named, c). IsAllowed-transfer_hook a v amount (AreAccounts-check a v amount named c) c,
)

-- Only the vault's admin changes the whitelist, and neither call changes who the admin is, the
-- mint or the vault's token account.
pub admin_only :
    (a : AdminAccounts) (v w : Vault) (user amount : ℕ)
    → (add_to_whitelist a v user amount ≡ ok w) ⊎ (remove_from_whitelist a v user ≡ ok w)
    → (a.signer ≡ v.admin)
      × (w.admin ≡ v.admin)
      × (w.mint ≡ v.mint)
      × (w.vault_token_account ≡ v.vault_token_account)
unfolding add_to_whitelist remove_from_whitelist upsert_whitelist_entry remove_whitelist_entry
admin_only a v w user amount (inl h) = ground arith
admin_only a v w user amount (inr h) = ground arith
