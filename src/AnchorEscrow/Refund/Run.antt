-- ===== src/AnchorEscrow/Refund/Run.antt =====
-- The parts of a `refund` of the Anchor escrow that succeeds (instructions/refund.rs).
use q2_26_accel_v1c70ryg0d.Prelude.{◌≡◌, true, ok, through, via, guard-eq-ok, ◌>>=◌}
use q2_26_accel_v1c70ryg0d.AnchorEscrow.{
  Escrow, Mint, TokenAccount, escrow_account, token_account, Chain, Platform, close_escrow,
  empty_and_close_vault, escrow_of, token_of, mint_of,
}
use q2_26_accel_v1c70ryg0d.AnchorEscrow.Loads.{escrow_of_lem, token_of_lem}
use q2_26_accel_v1c70ryg0d.AnchorEscrow.Refund.{RefundAccounts, check_refund, refund}

pub record IsRun (p : Platform) (a : RefundAccounts) (w w' : Chain) : Type 0 where
  pub m : Mint
  pub ata : TokenAccount
  pub e : Escrow
  pub v : TokenAccount
  pub signed : a.maker_signed ≡ true
  pub had : w.accounts a.maker_ata_a ≡ token_account ata
  pub stored : w.accounts a.escrow ≡ escrow_account e
  pub held : w.accounts a.vault ≡ token_account v
  pub checked : check_refund p a ata e v ≡ ok tt
  pub paid_out :
      (empty_and_close_vault p a.token_program a.escrow a.vault e a.maker_ata_a a.maker a.mint_a
          m.decimals v.amount w
        >>= λ w1. p.invoke (close_escrow a.escrow a.maker) w1)
      ≡ ok w'

pub refund-IsRun :
    (p : Platform) (a : RefundAccounts) (w w' : Chain) → refund p a w ≡ ok w' → IsRun p a w w'
unfolding refund
refund-IsRun p a w w' h =
    let (signed, h1) = guard-eq-ok a.maker_signed _ _ h in
    elim (through (mint_of (w.accounts a.mint_a)) _ h1) [
      | via m minted h2 ↦ elim (through (token_of (w.accounts a.maker_ata_a)) _ h2) [
        | via ata had h3 ↦ elim (through (escrow_of (w.accounts a.escrow)) _ h3) [
          | via e stored h4 ↦ elim (through (token_of (w.accounts a.vault)) _ h4) [
            | via v held h5 ↦
                let (program, h6) = guard-eq-ok (p.is_token_program a.token_program) _ _ h5 in
                elim (through (check_refund p a ata e v) _ h6) [
                  | via _ checked h7 ↦ record {
                    m = m;
                    ata = ata;
                    e = e;
                    v = v;
                    signed = signed;
                    had = token_of_lem _ ata had;
                    stored = escrow_of_lem _ e stored;
                    held = token_of_lem _ v held;
                    checked = checked;
                    paid_out = h7;
                  }
                ]
          ]
        ]
      ]
    ]
