-- ===== src/Whitelist/Tests.antt =====
-- Runs of the whitelist transfer hook on a vault with two entries.
use q2_26_accel_v1c70ryg0d.Prelude.{
  ℕ, ◌+◌, ◌*◌, ◌≤◌, ◌≡◌, ◌↔◌, refl, true, none, some, List, [], ◌∷◌, ◌==◌, if◌then◌else◌, ok, err,
  arith,
}
use q2_26_accel_v1c70ryg0d.Whitelist.{
  WhitelistEntry, Vault, vault_len, serialized_len, find, update_first, push_entry,
  upsert_whitelist_entry, VaultBumps, initialize_vault, HookAccounts, transfer_hook,
}
use q2_26_accel_v1c70ryg0d.Whitelist.Entries.{allowance, IsValid}
use q2_26_accel_v1c70ryg0d.Whitelist.Map.{upsert-allowance}
use q2_26_accel_v1c70ryg0d.Whitelist.Hook.{IsAllowed, AreAccounts, transfer_hook_iff}
use q2_26_accel_v1c70ryg0d.Whitelist.Setup.{
  World, Host, SetupAccounts, set_up, open_accounts, extra_account_metas, MintAccounts, check_mint,
  mint_tokens,
}
use q2_26_accel_v1c70ryg0d.Whitelist.Ready.{
  Records, admin_accounts_of, IsMinted, mint_tokens-IsMinted,
}
use q2_26_accel_v1c70ryg0d.Whitelist.Program.{add_to_whitelist_tx, transfer_hook_tx, execute_all}
use q2_26_accel_v1c70ryg0d.Whitelist.Kept.{whitelist-IsKept}

abbrev vault_with : List WhitelistEntry → Vault
vault_with es = record {
  admin = 1;
  mint = 2;
  vault_token_account = 3;
  whitelist = es;
  bump = 255;
  mint_bump = 254;
  extra_account_meta_bump = 253;
}

abbrev entry : ℕ → ℕ → WhitelistEntry
entry user amount = record { user = user; amount = amount }

abbrev two : Vault
two = vault_with (entry 10 500 ∷ entry 11 70 ∷ [])

abbrev three : Vault
three = vault_with (entry 10 500 ∷ entry 11 70 ∷ entry 12 5 ∷ [])

two-IsValid : IsValid two
unfolding find
two-IsValid = record {
  distinct = (refl, omega arith, (refl, omega arith, tt));
  bounded = omega arith;
}

upsert_runs : upsert_whitelist_entry two 12 5 ≡ ok three
unfolding upsert_whitelist_entry update_first push_entry
upsert_runs = refl

upsert-allowance_example :
    IsValid three
    × ((k : ℕ)
        → allowance k three.whitelist ≡ (if 12 == k then some 5 else allowance k two.whitelist))
upsert-allowance_example = upsert-allowance two three 12 5 two-IsValid upsert_runs

abbrev bumps : VaultBumps
bumps = record { vault = 255; mint = 254; extra_account_meta_list = 253 }

-- The user 10 pays into the vault's token account.
abbrev hook_accounts : HookAccounts
hook_accounts = record {
  source = record { key = 20; token_mint = 2; owner = 10 };
  mint_key = 2;
  destination = record { key = 3; token_mint = 2; owner = 40 };
  meta_list_key = 50;
  meta_list_address = λ mint. 50;
  hook_vault_key = 40;
  hook_vault_address = λ bump. 40;
  transferring = some true;
}

transfer_hook_iff_example :
    (transfer_hook hook_accounts two 200 ≡ ok tt)
    ↔ (AreAccounts hook_accounts two × IsAllowed hook_accounts two 200)
transfer_hook_iff_example = transfer_hook_iff hook_accounts two 200

abbrev host : Host
host = record {
  program_id = 50;
  vault_address = λ bump. 51;
  vault_bump = 255;
  mint_address = λ bump. 52;
  mint_bump = 254;
  meta_list_address = λ mint bump. 53;
  meta_list_bump = λ mint. 253;
  associated_address = λ wallet mint program. 54;
  meta_list_size = λ metas. 16 + 35 * metas;
  invoke = λ c w. ok (record w { sent = c ∷ w.sent });
}

host-Records : Records host
host-Records c w w' h = cc

abbrev setup_accounts : SetupAccounts
setup_accounts = record {
  admin = 1;
  vault = 51;
  mint = 52;
  vault_token_account = 54;
  extra_account_meta_list = 53;
  token_program = 5;
}

abbrev bare : World
bare = record { vault = none; sent = [] }

ready : World
ready = elim (set_up host setup_accounts bare) [ ok w ↦ w | err e ↦ bare ]

set_up_runs : set_up host setup_accounts bare ≡ ok ready
unfolding ready set_up open_accounts extra_account_metas initialize_vault
set_up_runs = refl

abbrev later_accounts : HookAccounts
later_accounts = record {
  source = record { key = 60; token_mint = 52; owner = 61 };
  mint_key = 52;
  destination = record { key = 54; token_mint = 52; owner = 51 };
  meta_list_key = 53;
  meta_list_address = λ mint. 53;
  hook_vault_key = 51;
  hook_vault_address = λ bump. 51;
  transferring = some true;
}

abbrev mint_accounts : MintAccounts
mint_accounts = record {
  admin = 1;
  vault = 51;
  mint = 52;
  recipient_token_account = 60;
  recipient = 61;
  token_program = 5;
  recipient_mint = 52;
  recipient_owner = 61;
}

minted : World
minted = elim (mint_tokens host mint_accounts 70 ready) [ ok w ↦ w | err e ↦ ready ]

mint_runs : mint_tokens host mint_accounts 70 ready ≡ ok minted
unfolding minted ready set_up open_accounts extra_account_metas initialize_vault mint_tokens
    check_mint
mint_runs = refl

mint_tokens-IsMinted_example : IsMinted host mint_accounts 70 ready minted
mint_tokens-IsMinted_example =
    mint_tokens-IsMinted host mint_accounts 70 ready minted host-Records mint_runs

whitelist-IsKept_example :
    (v : Vault) × ((execute_all host
        (add_to_whitelist_tx (admin_accounts_of host setup_accounts) 61 500
          ∷ transfer_hook_tx later_accounts 200
          ∷ [])
        ready).vault
      ≡ some v)
    × IsValid v
    × (serialized_len v ≤ vault_len)
    × (v.admin ≡ 1)
    × (v.mint ≡ 52)
    × (v.vault_token_account ≡ 54)
whitelist-IsKept_example =
    whitelist-IsKept host setup_accounts
      (add_to_whitelist_tx (admin_accounts_of host setup_accounts) 61 500
        ∷ transfer_hook_tx later_accounts 200
        ∷ [])
      bare ready host-Records set_up_runs
