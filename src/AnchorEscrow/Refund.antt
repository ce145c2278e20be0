-- ===== src/AnchorEscrow/Refund.antt =====
-- instructions/refund.rs of the Anchor escrow, and `refund` of its lib.rs.
pub mod Run
pub mod Live
pub mod Effects
use q2_26_accel_v1c70ryg0d.Prelude.{ℕ, Bool, ◌==◌, Result, ok, err, ◌>>=◌, ◌>>◌, guard, true, false}
use q2_26_accel_v1c70ryg0d.AnchorEscrow.{
  Error, account_not_signer, invalid_program_id, constraint_has_one, Escrow, TokenAccount, Chain,
  close_escrow, Platform, escrow_of, token_of, mint_of, check_associated, check_escrow_seeds,
  empty_and_close_vault,
}

pub record RefundAccounts : Type 0 where
  pub maker : ℕ
  pub maker_signed : Bool
  pub mint_a : ℕ
  pub maker_ata_a : ℕ
  pub escrow : ℕ
  pub vault : ℕ
  pub token_program : ℕ

-- The attributes of `maker_ata_a`, `escrow` and `vault`.
unfoldable pub check_refund :
    Platform → RefundAccounts → TokenAccount → Escrow → TokenAccount → Result Error (Unit {0})
check_refund p a ata e vault = do
  check_associated p a.maker_ata_a ata a.maker a.mint_a
  check_escrow_seeds p a.escrow e a.maker
  guard (e.mint_a == a.mint_a) constraint_has_one
  guard (e.maker == a.maker) constraint_has_one
  check_associated p a.vault vault a.escrow a.mint_a

unfoldable pub refund : Platform → RefundAccounts → Chain → Result Error Chain
refund p a w = do
  guard a.maker_signed account_not_signer
  mint_a ← mint_of (w.accounts a.mint_a)
  ata ← token_of (w.accounts a.maker_ata_a)
  e ← escrow_of (w.accounts a.escrow)
  vault ← token_of (w.accounts a.vault)
  guard (p.is_token_program a.token_program) invalid_program_id
  check_refund p a ata e vault
  w1 ←
      empty_and_close_vault p a.token_program a.escrow a.vault e a.maker_ata_a a.maker a.mint_a
        mint_a.decimals vault.amount w
  p.invoke (close_escrow a.escrow a.maker) w1
