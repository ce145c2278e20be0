-- ===== src/Whitelist/Setup.antt =====
-- Setting the whitelist up and minting (instructions/initialize_whitelist.rs,
-- init_extra_account_meta.rs and mint_token.rs, and the transfer hook's account list in lib.rs). The
-- signatures are checked by the runtime; `system_program` and `associated_token_program` are fixed by
-- their types.
use q2_26_accel_v1c70ryg0d.Prelude.{
  is_some, ℕ, ◌+◌, Bool, false, Option, none, some, List, [], ◌∷◌, length, ◌==◌, Result, ok, err,
  ◌>>=◌, ◌>>◌, guard, reject_if,
}
use q2_26_accel_v1c70ryg0d.Prelude.Words.{Bytes}
use q2_26_accel_v1c70ryg0d.Whitelist.{
  Vault, VaultError, constraint_seeds, constraint_has_one, constraint_token_mint,
  constraint_token_owner, constraint_associated, already_in_use, panicked,
  account_owned_by_wrong_program, vault_len, VaultBumps, initialize_vault,
}

pub data Seed : Type 0 where
  literal : Bytes → Seed

pub record ExtraAccountMeta : Type 0 where
  pub seeds : List Seed
  pub is_signer : Bool
  pub is_writable : Bool

-- The bytes of "vault".
abbrev pub vault_seed : Bytes
vault_seed = b'v' ∷ b'a' ∷ b'u' ∷ b'l' ∷ b't' ∷ []

abbrev pub decimals : ℕ
decimals = 9

unfoldable pub extra_account_metas : List ExtraAccountMeta
extra_account_metas =
    record { seeds = literal vault_seed ∷ []; is_signer = false; is_writable = false } ∷ []

-- The calls of other programs. `signer` is the address that the signer seeds derive.
pub data Call : Type 0 where
  create_account : (payer key space : ℕ) → Call
  create_mint :
      (payer key decimals authority token_program hook_authority hook_program delegate : ℕ) → Call
  create_token_account : (payer key mint owner token_program : ℕ) → Call
  init_meta_list : (key : ℕ) → List ExtraAccountMeta → Call
  mint_to : (token_program mint to authority signer amount : ℕ) → Call

-- The vault's account, and the calls that other programs have accepted, the last one first.
pub record World : Type 0 where
  pub vault : Option Vault
  pub sent : List Call

pub record Host : Type 0 where
  pub program_id : ℕ
  pub vault_address : (bump : ℕ) → ℕ
  pub vault_bump : ℕ
  pub mint_address : (bump : ℕ) → ℕ
  pub mint_bump : ℕ
  pub meta_list_address : (mint bump : ℕ) → ℕ
  pub meta_list_bump : (mint : ℕ) → ℕ
  pub associated_address : (wallet mint token_program : ℕ) → ℕ
  pub meta_list_size : (metas : ℕ) → ℕ
  pub invoke : Call → World → Result VaultError World

pub record SetupAccounts : Type 0 where
  pub admin : ℕ
  pub vault : ℕ
  pub mint : ℕ
  pub vault_token_account : ℕ
  pub extra_account_meta_list : ℕ
  pub token_program : ℕ

abbrev pub bumps_of : Host → SetupAccounts → VaultBumps
bumps_of h a = record {
  vault = h.vault_bump;
  mint = h.mint_bump;
  extra_account_meta_list = h.meta_list_bump a.mint;
}

-- The `init` attributes, in the order of the fields. The vault's address is one for the program.
unfoldable pub open_accounts : Host → SetupAccounts → World → Result VaultError World
open_accounts h a w = do
  guard (a.vault == h.vault_address h.vault_bump) constraint_seeds
  reject_if (is_some w.vault) already_in_use
  w1 ← h.invoke (create_account a.admin a.vault (8 + vault_len)) w
  guard (a.mint == h.mint_address h.mint_bump) constraint_seeds
  w2 ←
      h.invoke
        (create_mint a.admin a.mint decimals a.vault a.token_program a.vault h.program_id a.admin)
        w1
  guard (a.vault_token_account == h.associated_address a.vault a.mint a.token_program)
      constraint_associated
  w3 ←
      h.invoke (create_token_account a.admin a.vault_token_account a.mint a.vault a.token_program)
        w2
  guard (a.extra_account_meta_list == h.meta_list_address a.mint (h.meta_list_bump a.mint))
      constraint_seeds
  h.invoke
      (create_account a.admin a.extra_account_meta_list
        (h.meta_list_size (length extra_account_metas)))
      w3

-- The handler; what it leaves in the vault is written back at the end.
unfoldable pub set_up : Host → SetupAccounts → World → Result VaultError World
set_up h a w = do
  w1 ← open_accounts h a w
  w2 ← h.invoke (init_meta_list a.extra_account_meta_list extra_account_metas) w1
  ok (record w2 {
    vault = some (initialize_vault a.admin a.mint a.vault_token_account (bumps_of h a));
  })

pub record MetaListAccounts : Type 0 where
  pub payer : ℕ
  pub extra_account_meta_list : ℕ
  pub mint : ℕ

-- `unwrap` panics on an error.
abbrev pub unwrap {ℓ} : {A : Type ℓ} → Result VaultError A → Result VaultError A
unwrap (ok a) = ok a
unwrap (err e) = err panicked

-- `initialize_transfer_hook`
unfoldable pub initialize_transfer_hook : Host → MetaListAccounts → World → Result VaultError World
initialize_transfer_hook h a w = do
  guard (a.extra_account_meta_list == h.meta_list_address a.mint (h.meta_list_bump a.mint))
      constraint_seeds
  w1 ←
      h.invoke
        (create_account a.payer a.extra_account_meta_list
          (h.meta_list_size (length extra_account_metas)))
        w
  unwrap (h.invoke (init_meta_list a.extra_account_meta_list extra_account_metas) w1)

pub record MintAccounts : Type 0 where
  pub admin : ℕ
  pub vault : ℕ
  pub mint : ℕ
  pub recipient_token_account : ℕ
  pub recipient : ℕ
  pub token_program : ℕ
  -- The mint and the owner in the recipient's token account.
  pub recipient_mint : ℕ
  pub recipient_owner : ℕ

abbrev pub load_vault : World → Result VaultError Vault
load_vault w = elim w.vault [ some v ↦ ok v | none ↦ err account_owned_by_wrong_program ]

unfoldable pub check_mint : Host → MintAccounts → Vault → Result VaultError (Unit {0})
check_mint h a v = do
  guard (a.vault == h.vault_address v.bump) constraint_seeds
  guard (v.mint == a.mint) constraint_has_one
  guard (v.admin == a.admin) constraint_has_one
  guard (a.mint == h.mint_address v.mint_bump) constraint_seeds
  guard (a.recipient_mint == a.mint) constraint_token_mint
  guard (a.recipient_owner == a.recipient) constraint_token_owner

unfoldable pub mint_tokens : Host → MintAccounts → ℕ → World → Result VaultError World
mint_tokens h a amount w = do
  v ← load_vault w
  check_mint h a v
  h.invoke
      (mint_to a.token_program a.mint a.recipient_token_account a.vault (h.vault_address v.bump)
        amount)
      w
