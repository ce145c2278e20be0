-- ===== src/Escrow/Utils.antt =====
-- The helpers that accel-p-escrow/src/instructions/refund.rs and take.rs each declare for themselves,
-- in the same words.
pub mod Close
pub mod Tokens
use q2_26_accel_v1c70ryg0d.Prelude.{
  ℕ, ◌+◌, not, ◌||◌, List, [], ◌∷◌, ◌==◌, ok, ◌>>=◌, ◌>>◌, guard, reject_if, ok_or,
}
use q2_26_accel_v1c70ryg0d.Prelude.Words.{Bytes, checked_u64}
use q2_26_accel_v1c70ryg0d.Solana.{
  Address, address_bytes, Account, AccountView, World, update, ProgramResult, Platform,
  invalid_account_data, arithmetic_overflow,
}

-- The bytes of `b"escrow"`.
abbrev pub escrow_seed : Bytes
escrow_seed = b'e' ∷ b's' ∷ b'c' ∷ b'r' ∷ b'o' ∷ b'w' ∷ []

module _ (p : Platform) where
  open p use {program_id, derive_address, unpack_token, close}

  abbrev pub escrow_pda : Address → ℕ → Address
  escrow_pda maker bump =
      derive_address (escrow_seed ∷ address_bytes maker ∷ (bump ∷ []) ∷ []) program_id

  unfoldable pub verify_escrow_pda : AccountView → AccountView → ℕ → ProgramResult (Unit {0})
  verify_escrow_pda escrow_account maker bump =
      guard (escrow_pda maker.address bump == escrow_account.address) invalid_account_data

  -- The block that checks a token account's owner and mint.
  unfoldable pub check_token_account :
      World → AccountView → Address → Address → ProgramResult (Unit {0})
  check_token_account w account owner mint = do
    t ← unpack_token (w account.address)
    reject_if (not (t.owner == owner) || not (t.mint == mint)) invalid_account_data

  -- The account's lamports move to the destination; the account is emptied and closed.
  unfoldable pub close_escrow_account : World → AccountView → AccountView → ProgramResult World
  close_escrow_account w escrow_account destination = do
    let lamports = (w escrow_account.address).lamports
    let old = w destination.address
    total ← ok_or (checked_u64 (old.lamports + lamports)) arithmetic_overflow
    let w1 = update w destination.address (record old { lamports = total })
    let w2 = update w1 escrow_account.address (record (w1 escrow_account.address) { lamports = 0 })
    closed ← close (w2 escrow_account.address)
    ok (update w2 escrow_account.address closed)
