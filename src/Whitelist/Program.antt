-- ===== src/Whitelist/Program.antt =====
-- The instructions of the whitelist program (lib.rs), and sequences of transactions.
use q2_26_accel_v1c70ryg0d.Prelude.{ℕ, some, List, [], ◌∷◌, Result, ok, err, ◌>>=◌, ◌>>◌}
use q2_26_accel_v1c70ryg0d.Whitelist.{
  Vault, VaultError, AdminAccounts, add_to_whitelist, remove_from_whitelist, HookAccounts,
  transfer_hook,
}
use q2_26_accel_v1c70ryg0d.Whitelist.Setup.{
  World, Host, SetupAccounts, set_up, MetaListAccounts, initialize_transfer_hook, MintAccounts,
  load_vault, mint_tokens,
}

pub data Transaction : Type 0 where
  initialize_vault_tx : SetupAccounts → Transaction
  add_to_whitelist_tx : AdminAccounts → (user amount : ℕ) → Transaction
  remove_from_whitelist_tx : AdminAccounts → (user : ℕ) → Transaction
  mint_tokens_tx : MintAccounts → (amount : ℕ) → Transaction
  initialize_transfer_hook_tx : MetaListAccounts → Transaction
  transfer_hook_tx : HookAccounts → (amount : ℕ) → Transaction

-- Anchor loads the vault before a handler and writes it back after it.
abbrev pub store_vault : World → Vault → World
store_vault w v = record w { vault = some v }

unfoldable pub execute : Host → Transaction → World → Result VaultError World
execute h (initialize_vault_tx a) w = set_up h a w
execute h (add_to_whitelist_tx a user amount) w = do
  v ← load_vault w
  v' ← add_to_whitelist a v user amount
  ok (store_vault w v')
execute h (remove_from_whitelist_tx a user) w = do
  v ← load_vault w
  v' ← remove_from_whitelist a v user
  ok (store_vault w v')
execute h (mint_tokens_tx a amount) w = mint_tokens h a amount w
execute h (initialize_transfer_hook_tx a) w = initialize_transfer_hook h a w
execute h (transfer_hook_tx a amount) w = do v ← load_vault w; transfer_hook a v amount; ok w

-- A transaction that fails is rolled back by the runtime.
abbrev pub settle : World → Result VaultError World → World
settle w (ok w') = w'
settle w (err e) = w

unfoldable pub execute_all : Host → List Transaction → World → World
execute_all h [] w = w
execute_all h (t ∷ ts) w = execute_all h ts (settle w (execute h t w))
