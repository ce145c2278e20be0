-- ===== src/Whitelist/Ready.antt =====
-- What setting the whitelist up establishes for the calls that follow, and who may mint
-- (instructions/initialize_whitelist.rs and mint_token.rs).
use q2_26_accel_v1c70ryg0d.Prelude.{ℕ, ◌≡◌, ap, ◌∙◌, some, ◌∷◌, ok, through, via, [], ◌+◌, arith}
use q2_26_accel_v1c70ryg0d.Whitelist.{Vault, AdminAccounts, check_admin, HookAccounts, vault_len}
use q2_26_accel_v1c70ryg0d.Whitelist.Hook.{AreAccounts}
use q2_26_accel_v1c70ryg0d.Whitelist.Setup.{
  Call, create_account, create_mint, create_token_account, init_meta_list, mint_to, World, Host,
  SetupAccounts, extra_account_metas, MintAccounts, load_vault, check_mint, mint_tokens,
}

-- A call that succeeds does not write the vault.
abbrev pub Records : Host → Type 0
Records h = (c : Call) (w w' : World) → h.invoke c w ≡ ok w' → w' ≡ record w { sent = c ∷ w.sent }

-- The accounts that the admin and the hook pass later.
abbrev pub admin_accounts_of : Host → SetupAccounts → AdminAccounts
admin_accounts_of h a = record {
  signer = a.admin;
  vault_key = a.vault;
  vault_address = h.vault_address;
}

-- The hook's accounts, as far as set-up determines them.
pub record AreHookAccounts (h : Host) (a : SetupAccounts) (b : HookAccounts) : Type 0 where
  pub mint_is : b.mint_key ≡ a.mint
  pub meta_list_is : b.meta_list_key ≡ a.extra_account_meta_list
  pub meta_list_at :
      b.meta_list_address a.mint ≡ h.meta_list_address a.mint (h.meta_list_bump a.mint)
  pub vault_is : b.hook_vault_key ≡ a.vault
  pub vault_at : b.hook_vault_address h.vault_bump ≡ h.vault_address h.vault_bump

pub record IsSetUp (h : Host) (a : SetupAccounts) (b : HookAccounts) (w w' : World) : Type 0 where
  pub vault : Vault
  pub stored : w'.vault ≡ some vault
  pub admin_is : vault.admin ≡ a.admin
  pub is_empty : vault.whitelist ≡ []
  pub token_account_is :
      vault.vault_token_account ≡ h.associated_address a.vault a.mint a.token_program
  pub called :
      w'.sent
      ≡ init_meta_list a.extra_account_meta_list extra_account_metas
        ∷ create_account a.admin a.extra_account_meta_list (h.meta_list_size 1)
        ∷ create_token_account a.admin a.vault_token_account a.mint a.vault a.token_program
        ∷ create_mint a.admin a.mint 9 a.vault a.token_program a.vault h.program_id a.admin
        ∷ create_account a.admin a.vault (8 + vault_len)
        ∷ w.sent
  pub admin_passes : check_admin (admin_accounts_of h a) vault ≡ ok tt
  pub hook_passes : AreAccounts b vault

record IsOpened (h : Host) (a : SetupAccounts) (w w' : World) : Type 0 where
  vault_is : a.vault ≡ h.vault_address h.vault_bump
  token_account_is : a.vault_token_account ≡ h.associated_address a.vault a.mint a.token_program
  meta_list_is : a.extra_account_meta_list ≡ h.meta_list_address a.mint (h.meta_list_bump a.mint)
  called :
      w'.sent
      ≡ create_account a.admin a.extra_account_meta_list (h.meta_list_size 1)
        ∷ create_token_account a.admin a.vault_token_account a.mint a.vault a.token_program
        ∷ create_mint a.admin a.mint 9 a.vault a.token_program a.vault h.program_id a.admin
        ∷ create_account a.admin a.vault (8 + vault_len)
        ∷ w.sent

pub record IsMinted (h : Host) (a : MintAccounts) (amount : ℕ) (w w' : World) : Type 0 where
  pub vault : Vault
  pub stored : w.vault ≡ some vault
  pub by_admin : a.admin ≡ vault.admin
  pub recipient_is : (a.recipient_owner ≡ a.recipient) × (a.recipient_mint ≡ vault.mint)
  pub called :
      w'.sent
      ≡ mint_to a.token_program vault.mint a.recipient_token_account a.vault a.vault amount ∷ w.sent
  pub kept : w'.vault ≡ w.vault

-- Only the vault's admin mints, only tokens of the vault's mint, and only into a token account of
-- that mint that the recipient owns; the vault signs for the amount asked, once, and is left as it
-- was. Laws: Records.
pub mint_tokens-IsMinted :
    (h : Host) (a : MintAccounts) (amount : ℕ) (w w' : World)
    → Records h
    → mint_tokens h a amount w ≡ ok w'
    → IsMinted h a amount w w'
unfolding mint_tokens check_mint
mint_tokens-IsMinted h a amount w w' records e = elim (through (load_vault w) _ e) [
  | via v load e1 ↦ elim (through (check_mint h a v) _ e1) [
    | via _ checked e2 ↦
        let done = records _ w w' e2 in
        let place : a.vault ≡ h.vault_address v.bump = ground (arith, checked) in
        let mint : a.mint ≡ v.mint = ground (arith, checked) in
        record {
          vault = v;
          stored = ground (arith, load);
          by_admin = ground (arith, checked);
          recipient_is = (ground (arith, checked), ground (arith, checked));
          called = ap (λ z. z.sent) done ∙ ground (arith, place, mint);
          kept = ap (λ z. z.vault) done;
        }
  ]
]
