-- ===== src/AnchorEscrow/Refund/Live.antt =====
-- A maker who is not taken up gets the tokens back (instructions/refund.rs of the Anchor escrow).
use q2_26_accel_v1c70ryg0d.Prelude.{◌≡◌, true}
use q2_26_accel_v1c70ryg0d.AnchorEscrow.{
  Escrow, Mint, TokenAccount, escrow_account, token_account, mint_account, Chain, Platform,
}
use q2_26_accel_v1c70ryg0d.AnchorEscrow.Backed.{IsVaulted}
use q2_26_accel_v1c70ryg0d.AnchorEscrow.Refund.{RefundAccounts}

-- The accounts of an offer and of its maker.
pub record IsOwnOffer (p : Platform) (a : RefundAccounts) (e : Escrow) (w : Chain)
    (b : IsVaulted p a.escrow e w) : Type 0 where
  pub signed : a.maker_signed ≡ true
  pub stored : w.accounts a.escrow ≡ escrow_account e
  pub maker_is : e.maker ≡ a.maker
  pub mint_is : e.mint_a ≡ a.mint_a
  pub mint : Mint
  pub minted : w.accounts a.mint_a ≡ mint_account mint
  pub ata : TokenAccount
  pub had : w.accounts a.maker_ata_a ≡ token_account ata
  pub ata_of : (ata.owner ≡ a.maker) × (ata.mint ≡ a.mint_a)
  pub ata_at : a.maker_ata_a ≡ p.default_associated_address a.maker a.mint_a
  pub vault_at :
      (a.vault ≡ p.associated_address a.escrow e.mint_a b.program)
      × (a.vault ≡ p.default_associated_address a.escrow a.mint_a)
  pub program : p.is_token_program a.token_program ≡ true
