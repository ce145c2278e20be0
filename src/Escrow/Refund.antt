-- ===== src/Escrow/Refund.antt =====
-- accel-p-escrow/src/instructions/refund.rs.
pub mod Effects
use q2_26_accel_v1c70ryg0d.Prelude.{
  ℕ, not, ◌||◌, List, [], ◌∷◌, ◌==◌, ok, err, ◌>>=◌, ◌>>◌, guard, reject_if,
}
use q2_26_accel_v1c70ryg0d.Prelude.Words.{Bytes}
use q2_26_accel_v1c70ryg0d.Solana.{
  address_bytes, AccountView, World, ProgramResult, Platform, transfer, close_token_account,
  owned_by, not_enough_account_keys, missing_required_signature, illegal_owner,
  invalid_account_data,
}
use q2_26_accel_v1c70ryg0d.Escrow.State.{Escrow, load_escrow, maker, mint_a, amount_to_give}
use q2_26_accel_v1c70ryg0d.Escrow.Utils.{
  escrow_seed, verify_escrow_pda, check_token_account, close_escrow_account,
}

pub record RefundAccounts : Type 0 where
  pub maker : AccountView
  pub mint_a : AccountView
  pub escrow_account : AccountView
  pub maker_ata : AccountView
  pub escrow_ata : AccountView
  pub token_program : AccountView

unfoldable pub unpack_refund : List AccountView → ProgramResult RefundAccounts
unpack_refund (maker ∷ mint_a ∷ escrow ∷ maker_ata ∷ escrow_ata ∷ token ∷ _) = ok (record {
  maker = maker;
  mint_a = mint_a;
  escrow_account = escrow;
  maker_ata = maker_ata;
  escrow_ata = escrow_ata;
  token_program = token;
})
unpack_refund _ = err not_enough_account_keys

module _ (p : Platform) where
  -- From the transfer on.
  unfoldable pub give_back : RefundAccounts → Escrow → World → ProgramResult World
  give_back a e w = do
    let signers = (escrow_seed ∷ address_bytes a.maker.address ∷ (e.bump ∷ []) ∷ []) ∷ []
    w1 ←
        p.invoke_signed signers
          (transfer a.escrow_ata.address a.maker_ata.address a.escrow_account.address
            (amount_to_give e))
          w
    w2 ←
        p.invoke_signed signers
          (close_token_account a.escrow_ata.address a.maker.address a.escrow_account.address) w1
    close_escrow_account p w2 a.escrow_account a.maker

  unfoldable pub refund : RefundAccounts → World → ProgramResult World
  refund a w = do
    guard a.maker.is_signer missing_required_signature
    guard (owned_by w a.escrow_account p.program_id) illegal_owner
    e ← load_escrow w a.escrow_account
    reject_if (not (maker e == a.maker.address) || not (mint_a e == a.mint_a.address))
        invalid_account_data
    verify_escrow_pda p a.escrow_account a.maker e.bump
    check_token_account p w a.maker_ata a.maker.address a.mint_a.address
    check_token_account p w a.escrow_ata a.escrow_account.address a.mint_a.address
    give_back a e w

  unfoldable pub process_refund_instruction : List AccountView → Bytes → World → ProgramResult World
  unfolding unpack_refund
  process_refund_instruction accounts input w = do a ← unpack_refund accounts; refund a w
