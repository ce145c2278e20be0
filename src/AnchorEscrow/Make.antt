-- ===== src/AnchorEscrow/Make.antt =====
-- instructions/make.rs of the Anchor escrow, and `make` of its lib.rs.
pub mod Effects
use q2_26_accel_v1c70ryg0d.Prelude.{ℕ, Bool, ◌==◌, Result, ok, err, ◌>>=◌, ◌>>◌, guard, true, false}
use q2_26_accel_v1c70ryg0d.AnchorEscrow.{
  Error, account_not_signer, invalid_program_id, constraint_seeds, constraint_token_owner,
  constraint_associated, constraint_mint_token_program, constraint_associated_token_token_program,
  Escrow, TokenAccount, Mint, escrow_account, Chain, update, create_escrow, create_token_account,
  transfer_checked, Platform, token_of, mint_of,
}

pub record MakeAccounts : Type 0 where
  pub maker : ℕ
  pub maker_signed : Bool
  pub mint_a : ℕ
  pub mint_b : ℕ
  pub maker_ata_a : ℕ
  pub escrow : ℕ
  pub vault : ℕ
  pub token_program : ℕ

-- The `init` attributes of `escrow` and of `vault`.
unfoldable pub open_accounts : Platform → MakeAccounts → ℕ → Chain → Result Error Chain
open_accounts p a seed w = do
  guard (a.escrow == p.escrow_address a.maker seed (p.escrow_bump a.maker seed)) constraint_seeds
  w1 ← p.invoke (create_escrow a.maker a.escrow) w
  p.invoke (create_token_account a.maker a.vault a.mint_a a.escrow a.token_program) w1

unfoldable pub check_make :
    Platform → MakeAccounts → Mint → Mint → TokenAccount → Result Error (Unit {0})
check_make p a mint_a mint_b ata = do
  guard (mint_a.token_program == a.token_program) constraint_mint_token_program
  guard (mint_b.token_program == a.token_program) constraint_mint_token_program
  guard (ata.owner == a.maker) constraint_token_owner
  guard (ata.token_program == a.token_program) constraint_associated_token_token_program
  guard (a.maker_ata_a == p.associated_address a.maker a.mint_a a.token_program)
      constraint_associated

unfoldable pub init_escrow : MakeAccounts → ℕ → ℕ → ℕ → Escrow
init_escrow a seed receive bump = record {
  seed = seed;
  maker = a.maker;
  mint_a = a.mint_a;
  mint_b = a.mint_b;
  receive = receive;
  bump = bump;
}

unfoldable pub deposit_to_vault : Platform → MakeAccounts → Mint → ℕ → Chain → Result Error Chain
deposit_to_vault p a mint_a deposit w =
    p.invoke
      (transfer_checked a.token_program a.maker_ata_a a.mint_a a.vault a.maker a.maker deposit
        mint_a.decimals)
      w

-- What the handler leaves in the escrow is written back at the end.
unfoldable pub write_escrow : ℕ → Escrow → Chain → Chain
write_escrow key e w = record w { accounts = update w.accounts key (escrow_account e) }

unfoldable pub make : Platform → MakeAccounts → ℕ → ℕ → ℕ → Chain → Result Error Chain
make p a seed deposit receive w = do
  guard a.maker_signed account_not_signer
  mint_a ← mint_of (w.accounts a.mint_a)
  mint_b ← mint_of (w.accounts a.mint_b)
  ata ← token_of (w.accounts a.maker_ata_a)
  guard (p.is_token_program a.token_program) invalid_program_id
  w1 ← open_accounts p a seed w
  check_make p a mint_a mint_b ata
  w2 ← deposit_to_vault p a mint_a deposit w1
  ok (write_escrow a.escrow (init_escrow a seed receive (p.escrow_bump a.maker seed)) w2)
