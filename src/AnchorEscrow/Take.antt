-- ===== src/AnchorEscrow/Take.antt =====
-- instructions/take.rs of the Anchor escrow, and `take` of its lib.rs.
pub mod Open
pub mod Run
pub mod Exchange
pub mod Effects
use q2_26_accel_v1c70ryg0d.Prelude.{
  ℕ, Bool, ◌==◌, if◌then◌else◌, Result, ok, err, ◌>>=◌, ◌>>◌, guard, true, false,
}
use q2_26_accel_v1c70ryg0d.AnchorEscrow.{
  Error, account_not_signer, invalid_program_id, constraint_has_one, constraint_token_mint,
  constraint_token_owner, constraint_associated_token_token_program,
  account_not_associated_token_account, Escrow, TokenAccount, Mint, Chain, create_token_account,
  transfer_checked, close_escrow, Platform, escrow_of, token_of, mint_of, is_system, require_system,
  check_associated, check_escrow_seeds, empty_and_close_vault,
}

pub record TakeAccounts : Type 0 where
  pub taker : ℕ
  pub taker_signed : Bool
  pub maker : ℕ
  pub mint_a : ℕ
  pub mint_b : ℕ
  pub taker_ata_a : ℕ
  pub taker_ata_b : ℕ
  pub maker_ata_b : ℕ
  pub escrow : ℕ
  pub vault : ℕ
  pub token_program : ℕ

unfoldable pub check_opened :
    Platform → (key mint wallet token_program : ℕ) → TokenAccount → Result Error (Unit {0})
check_opened p key mint wallet token_program t = do
  guard (t.mint == mint) constraint_token_mint
  guard (t.owner == wallet) constraint_token_owner
  guard (t.token_program == token_program) constraint_associated_token_token_program
  guard (key == p.associated_address wallet mint token_program) account_not_associated_token_account

-- `init_if_needed` of an associated token account: it is created where the system program owns the
-- address, and what stands there then is checked.
unfoldable pub open_if_needed :
    Platform → (payer key mint wallet token_program : ℕ) → Chain → Result Error Chain
open_if_needed p payer key mint wallet token_program w = do
  w1 ←
      if is_system (w.accounts key)
      then p.invoke (create_token_account payer key mint wallet token_program) w
      else ok w
  t ← token_of (w1.accounts key)
  check_opened p key mint wallet token_program t
  ok w1

-- The attributes of `taker_ata_b`, `escrow` and `vault`.
unfoldable pub check_take :
    Platform → TakeAccounts → TokenAccount → Escrow → TokenAccount → Result Error (Unit {0})
check_take p a ata_b e vault = do
  check_associated p a.taker_ata_b ata_b a.taker a.mint_b
  check_escrow_seeds p a.escrow e a.maker
  guard (e.maker == a.maker) constraint_has_one
  guard (e.mint_a == a.mint_a) constraint_has_one
  guard (e.mint_b == a.mint_b) constraint_has_one
  check_associated p a.vault vault a.escrow a.mint_a

unfoldable pub deposit_to_maker :
    Platform → TakeAccounts → Mint → Escrow → Chain → Result Error Chain
deposit_to_maker p a mint_b e w =
    p.invoke
      (transfer_checked a.token_program a.taker_ata_b a.mint_b a.maker_ata_b a.taker a.taker
        e.receive mint_b.decimals)
      w

-- The handler, then `close = maker`.
unfoldable pub swap :
    Platform → TakeAccounts → Mint → Mint → Escrow → TokenAccount → Chain → Result Error Chain
swap p a mint_a mint_b e vault w = do
  w1 ← deposit_to_maker p a mint_b e w
  w2 ←
      empty_and_close_vault p a.token_program a.escrow a.vault e a.taker_ata_a a.maker a.mint_a
        mint_a.decimals vault.amount w1
  p.invoke (close_escrow a.escrow a.maker) w2

unfoldable pub take : Platform → TakeAccounts → Chain → Result Error Chain
take p a w = do
  guard a.taker_signed account_not_signer
  require_system (w.accounts a.maker)
  mint_a ← mint_of (w.accounts a.mint_a)
  mint_b ← mint_of (w.accounts a.mint_b)
  ata_b ← token_of (w.accounts a.taker_ata_b)
  e ← escrow_of (w.accounts a.escrow)
  vault ← token_of (w.accounts a.vault)
  guard (p.is_token_program a.token_program) invalid_program_id
  w1 ← open_if_needed p a.taker a.taker_ata_a a.mint_a a.taker a.token_program w
  w2 ← open_if_needed p a.taker a.maker_ata_b a.mint_b a.maker a.token_program w1
  check_take p a ata_b e vault
  swap p a mint_a mint_b e vault w2
