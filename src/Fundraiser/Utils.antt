-- ===== src/Fundraiser/Utils.antt =====
-- pinocchio-fundraiser/src/constants.rs, src/error.rs and src/instructions/utils.rs.
pub mod Time
pub mod Close
use q2_26_accel_v1c70ryg0d.Prelude.{
  ℕ, ◌+◌, ◌*◌, ◌^◌, Bool, not, ◌&&◌, ◌||◌, List, [], ◌∷◌, length, take, drop, leb, ◌==◌,
  if◌then◌else◌, ok, err, ◌>>=◌, ◌>>◌, guard, reject_if, ok_or,
}
use q2_26_accel_v1c70ryg0d.Prelude.Int.{ℤ, pos, ◌-ℤ◌, leb_ℤ, saturate_i64, div_trunc}
use q2_26_accel_v1c70ryg0d.Prelude.Words.{Bytes, from_le_bytes, checked_u64}
use q2_26_accel_v1c70ryg0d.Solana.{
  Address, address_bytes, Account, AccountView, World, update, ProgramError, ProgramResult,
  invalid_instruction_data, invalid_account_data, arithmetic_overflow, custom, Platform,
  TokenAccount,
}
use q2_26_accel_v1c70ryg0d.Fundraiser.State.{Fundraiser, time_started}

abbrev pub min_amount_to_raise : ℕ
min_amount_to_raise = 3

abbrev pub seconds_to_days : ℕ
seconds_to_days = 86_400

abbrev pub max_contribution_percentage : ℕ
max_contribution_percentage = 10

abbrev pub percentage_scaler : ℕ
percentage_scaler = 100

abbrev pub target_not_met : ProgramError
target_not_met = custom 6000

abbrev pub target_met : ProgramError
target_met = custom 6001

abbrev pub contribution_too_big : ProgramError
contribution_too_big = custom 6002

abbrev pub contribution_too_small : ProgramError
contribution_too_small = custom 6003

abbrev pub maximum_contributions_reached : ProgramError
maximum_contributions_reached = custom 6004

abbrev pub fundraiser_not_ended : ProgramError
fundraiser_not_ended = custom 6005

abbrev pub fundraiser_ended : ProgramError
fundraiser_ended = custom 6006

abbrev pub invalid_amount : ProgramError
invalid_amount = custom 6007

-- `data.get(offset..offset + 8)` is there only if the whole range is.
unfoldable pub read_u64 : Bytes → ℕ → ProgramResult ℕ
read_u64 d offset = do
  guard (leb (offset + 8) (length d)) invalid_instruction_data
  ok (from_le_bytes (take 8 (drop offset d)))

unfoldable pub pow10 : ℕ → ProgramResult ℕ
pow10 decimals = ok_or (checked_u64 (10 ^ decimals)) arithmetic_overflow

unfoldable pub has_ended : Fundraiser → ℤ → Bool
has_ended f now =
    not (f.duration == 0)
    && leb_ℤ (pos f.duration) (div_trunc (saturate_i64 (now -ℤ time_started f)) seconds_to_days)

-- The bytes of `b"fundraiser"` and `b"contributor"`.
abbrev pub fundraiser_seed : Bytes
fundraiser_seed = b'f' ∷ b'u' ∷ b'n' ∷ b'd' ∷ b'r' ∷ b'a' ∷ b'i' ∷ b's' ∷ b'e' ∷ b'r' ∷ []

abbrev pub contributor_seed : Bytes
contributor_seed = b'c' ∷ b'o' ∷ b'n' ∷ b't' ∷ b'r' ∷ b'i' ∷ b'b' ∷ b'u' ∷ b't' ∷ b'o' ∷ b'r' ∷ []

module _ (p : Platform) where
  open p use {program_id, derive_address, unpack_token, close}

  abbrev pub fundraiser_pda : Address → ℕ → Address
  fundraiser_pda maker bump =
      derive_address (fundraiser_seed ∷ address_bytes maker ∷ (bump ∷ []) ∷ []) program_id

  abbrev pub contributor_pda : Address → Address → ℕ → Address
  contributor_pda fundraiser contributor bump =
      derive_address
        (contributor_seed ∷ address_bytes fundraiser ∷ address_bytes contributor ∷ (bump ∷ []) ∷ [])
        program_id

  unfoldable pub verify_fundraiser_pda_with_maker :
      AccountView → Address → ℕ → ProgramResult (Unit {0})
  verify_fundraiser_pda_with_maker fundraiser maker bump =
      guard (fundraiser_pda maker bump == fundraiser.address) invalid_account_data

  unfoldable pub verify_fundraiser_pda : AccountView → AccountView → ℕ → ProgramResult (Unit {0})
  unfolding verify_fundraiser_pda_with_maker
  verify_fundraiser_pda fundraiser maker bump =
      verify_fundraiser_pda_with_maker fundraiser maker.address bump

  unfoldable pub verify_contributor_pda :
      AccountView → AccountView → AccountView → ℕ → ProgramResult (Unit {0})
  verify_contributor_pda contributor_account fundraiser contributor bump =
      guard
        (contributor_pda fundraiser.address contributor.address bump == contributor_account.address)
        invalid_account_data

  unfoldable pub validate_token_account :
      World → AccountView → Address → Address → ProgramResult (Unit {0})
  validate_token_account w account owner mint = do
    t ← unpack_token (w account.address)
    guard (t.owner == owner && t.mint == mint) invalid_account_data

  unfoldable pub token_amount : World → AccountView → ProgramResult ℕ
  token_amount w account = do t ← unpack_token (w account.address); ok t.amount

  -- The account's lamports move to the destination; the account is emptied and closed.
  unfoldable pub close_program_account : World → AccountView → AccountView → ProgramResult World
  close_program_account w account destination = do
    let lamports = (w account.address).lamports
    let old = w destination.address
    total ← ok_or (checked_u64 (old.lamports + lamports)) arithmetic_overflow
    let w1 = update w destination.address (record old { lamports = total })
    let w2 = update w1 account.address (record (w1 account.address) { lamports = 0 })
    closed ← close (w2 account.address)
    ok (update w2 account.address closed)
