-- ===== src/Fundraiser/Initialize.antt =====
-- pinocchio-fundraiser/src/instructions/initialize.rs.
pub mod Effects
use q2_26_accel_v1c70ryg0d.Prelude.{
  ℕ, ◌*◌, ◌^◌, List, [], ◌∷◌, length, get_elem?, leb, ◌==◌, ok, err, ◌>>=◌, ◌>>◌, guard, reject_if,
  ok_or,
}
use q2_26_accel_v1c70ryg0d.Prelude.Int.{ℤ}
use q2_26_accel_v1c70ryg0d.Prelude.Words.{Bytes, checked_u64}
use q2_26_accel_v1c70ryg0d.Solana.{
  address_bytes, AccountView, World, ProgramResult, Platform, create_account, create_ata, owned_by,
  not_enough_account_keys, invalid_instruction_data, missing_required_signature,
  account_already_initialized, arithmetic_overflow, panicked,
}
use q2_26_accel_v1c70ryg0d.Fundraiser.State.{
  Fundraiser, fundraiser_len, load_fundraiser, store_fundraiser, set_maker, set_mint_to_raise,
  set_amount_to_raise, set_current_amount, set_time_started, set_duration,
}
use q2_26_accel_v1c70ryg0d.Fundraiser.Utils.{
  min_amount_to_raise, invalid_amount, pow10, read_u64, verify_fundraiser_pda, fundraiser_seed,
}

pub record InitializeAccounts : Type 0 where
  pub maker : AccountView
  pub mint_to_raise : AccountView
  pub fundraiser : AccountView
  pub vault : AccountView
  pub system_program : AccountView
  pub token_program : AccountView

unfoldable pub unpack_initialize : List AccountView → ProgramResult InitializeAccounts
unpack_initialize (maker ∷ mint ∷ fundraiser ∷ vault ∷ system ∷ token ∷ _) = ok (record {
  maker = maker;
  mint_to_raise = mint;
  fundraiser = fundraiser;
  vault = vault;
  system_program = system;
  token_program = token;
})
unpack_initialize _ = err not_enough_account_keys

-- The struct that `state` is left as, by the setters in their order.
unfoldable pub fill_fundraiser : Fundraiser → InitializeAccounts → ℕ → ℕ → ℕ → ℤ → Fundraiser
fill_fundraiser f a amount duration bump now =
    let f1 = set_mint_to_raise (set_maker f a.maker.address) a.mint_to_raise.address in
    let f2 = set_current_amount (set_amount_to_raise f1 amount) 0 in
    record (set_duration (set_time_started f2 now) duration) { bump = bump }

module _ (p : Platform) where
  -- The goal has to exceed three whole tokens.
  unfoldable pub check_goal : ℕ → ℕ → ProgramResult (Unit {0})
  check_goal decimals amount = do
    unit ← pow10 decimals
    minimum ← ok_or (checked_u64 (min_amount_to_raise * unit)) arithmetic_overflow
    reject_if (leb amount minimum) invalid_amount

  -- From `CreateAccount` on.
  unfoldable pub create_fundraiser : InitializeAccounts → ℕ → ℕ → ℕ → World → ProgramResult World
  create_fundraiser a amount duration bump w = do
    lamports ← p.minimum_balance fundraiser_len
    let seeds = fundraiser_seed ∷ address_bytes a.maker.address ∷ (bump ∷ []) ∷ []
    w1 ←
        p.invoke_signed (seeds ∷ [])
          (create_account a.maker.address a.fundraiser.address lamports fundraiser_len p.program_id)
          w
    w2 ←
        p.invoke_signed []
          (create_ata a.maker.address a.vault.address a.fundraiser.address a.mint_to_raise.address)
          w1
    f ← load_fundraiser w2 a.fundraiser
    now ← p.unix_timestamp
    ok (store_fundraiser w2 a.fundraiser (fill_fundraiser f a amount duration bump now))

  unfoldable pub initialize : InitializeAccounts → Bytes → World → ProgramResult World
  initialize a input w = do
    guard (length input == 10) invalid_instruction_data
    guard a.maker.is_signer missing_required_signature
    reject_if (owned_by w a.fundraiser p.program_id) account_already_initialized
    bump ← ok_or (get_elem? input 0) panicked
    amount ← read_u64 input 1
    duration ← ok_or (get_elem? input 9) panicked
    verify_fundraiser_pda p a.fundraiser a.maker bump
    decimals ← p.unpack_decimals (w a.mint_to_raise.address)
    check_goal decimals amount
    create_fundraiser a amount duration bump w

  unfoldable pub process_initialize : List AccountView → Bytes → World → ProgramResult World
  unfolding unpack_initialize
  process_initialize accounts input w = do a ← unpack_initialize accounts; initialize a input w
