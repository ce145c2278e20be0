-- ===== src/Escrow/Take.antt =====
-- accel-p-escrow/src/instructions/take.rs.
pub mod Checks
pub mod Swap
use q2_26_accel_v1c70ryg0d.Prelude.{
  ℕ, not, ◌||◌, List, [], ◌∷◌, ◌==◌, ok, err, ◌>>=◌, ◌>>◌, guard, reject_if,
}
use q2_26_accel_v1c70ryg0d.Prelude.Words.{Bytes}
use q2_26_accel_v1c70ryg0d.Solana.{
  address_bytes, AccountView, World, ProgramResult, Platform, transfer, close_token_account,
  owned_by, not_enough_account_keys, missing_required_signature, illegal_owner,
  invalid_account_data,
}
use q2_26_accel_v1c70ryg0d.Escrow.State.{
  Escrow, load_escrow, maker, mint_a, mint_b, amount_to_receive, amount_to_give,
}
use q2_26_accel_v1c70ryg0d.Escrow.Utils.{
  escrow_seed, verify_escrow_pda, check_token_account, close_escrow_account,
}

pub record TakeAccounts : Type 0 where
  pub taker : AccountView
  pub maker : AccountView
  pub mint_a : AccountView
  pub mint_b : AccountView
  pub escrow_account : AccountView
  pub taker_ata_a : AccountView
  pub taker_ata_b : AccountView
  pub maker_ata_b : AccountView
  pub escrow_ata : AccountView
  pub token_program : AccountView

unfoldable pub unpack_take : List AccountView → ProgramResult TakeAccounts
unpack_take (taker ∷ maker ∷ ma ∷ mb ∷ escrow ∷ ta ∷ tb ∷ mab ∷ ea ∷ token ∷ _) = ok (record {
  taker = taker;
  maker = maker;
  mint_a = ma;
  mint_b = mb;
  escrow_account = escrow;
  taker_ata_a = ta;
  taker_ata_b = tb;
  maker_ata_b = mab;
  escrow_ata = ea;
  token_program = token;
})
unpack_take _ = err not_enough_account_keys

module _ (p : Platform) where
  -- The four blocks that check the token accounts.
  unfoldable pub check_token_accounts : TakeAccounts → World → ProgramResult (Unit {0})
  check_token_accounts a w = do
    check_token_account p w a.taker_ata_a a.taker.address a.mint_a.address
    check_token_account p w a.taker_ata_b a.taker.address a.mint_b.address
    check_token_account p w a.maker_ata_b a.maker.address a.mint_b.address
    check_token_account p w a.escrow_ata a.escrow_account.address a.mint_a.address

  -- From the first transfer on.
  unfoldable pub exchange : TakeAccounts → Escrow → World → ProgramResult World
  exchange a e w = do
    w1 ←
        p.invoke_signed []
          (transfer a.taker_ata_b.address a.maker_ata_b.address a.taker.address
            (amount_to_receive e))
          w
    let signers = (escrow_seed ∷ address_bytes a.maker.address ∷ (e.bump ∷ []) ∷ []) ∷ []
    w2 ←
        p.invoke_signed signers
          (transfer a.escrow_ata.address a.taker_ata_a.address a.escrow_account.address
            (amount_to_give e))
          w1
    w3 ←
        p.invoke_signed signers
          (close_token_account a.escrow_ata.address a.maker.address a.escrow_account.address) w2
    close_escrow_account p w3 a.escrow_account a.maker

  unfoldable pub take_offer : TakeAccounts → World → ProgramResult World
  take_offer a w = do
    guard a.taker.is_signer missing_required_signature
    guard (owned_by w a.escrow_account p.program_id) illegal_owner
    e ← load_escrow w a.escrow_account
    reject_if
        (not (maker e == a.maker.address)
          || (not (mint_a e == a.mint_a.address) || not (mint_b e == a.mint_b.address)))
        invalid_account_data
    verify_escrow_pda p a.escrow_account a.maker e.bump
    check_token_accounts a w
    exchange a e w

  unfoldable pub process_take_instruction : List AccountView → Bytes → World → ProgramResult World
  unfolding unpack_take
  process_take_instruction accounts input w = do a ← unpack_take accounts; take_offer a w
