-- ===== src/Solana.antt =====
-- What the native programs (accel-p-escrow, pinocchio-fundraiser) take from the Solana runtime and
-- from the crates pinocchio, pinocchio-token, pinocchio-system, pinocchio-pubkey: the accounts, the
-- errors, and a record of the calls that are not implemented in this repository.
pub mod Laws
pub mod Sample
use q2_26_accel_v1c70ryg0d.Prelude.{
  ℕ, Bool, true, false, List, ◌==◌, if◌then◌else◌, Result, ok, err,
}
use q2_26_accel_v1c70ryg0d.Prelude.Int.{ℤ}
use q2_26_accel_v1c70ryg0d.Prelude.Words.{Bytes, to_le_bytes}

-- An address is the number whose 32 little-endian bytes it is.
abbrev pub Address : Type 0
Address = ℕ

abbrev pub address_bytes : Address → Bytes
address_bytes a = to_le_bytes 32 a

pub record Account : Type 0 where
  pub lamports : ℕ
  pub owner : Address
  pub bytes : Bytes

-- What an instruction is handed for each of its accounts. Two views of one address share the
-- account behind it.
pub record AccountView : Type 0 where
  pub address : Address
  pub is_signer : Bool

abbrev pub World : Type 0
World = Address → Account

abbrev pub update : World → Address → Account → World
update w k a j = if j == k then a else w j

pub data ProgramError : Type 0 where
  not_enough_account_keys invalid_instruction_data missing_required_signature : ProgramError
  illegal_owner invalid_account_data account_already_initialized : ProgramError
  arithmetic_overflow : ProgramError
  custom : ℕ → ProgramError
  -- A failed `assert_eq!` or an index out of bounds.
  panicked : ProgramError

abbrev pub ProgramResult : Type 0 → Type 0
ProgramResult A = Result ProgramError A

pub record TokenAccount : Type 0 where
  pub mint : Address
  pub owner : Address
  pub amount : ℕ

-- The seeds of one signer.
abbrev pub Seeds : Type 0
Seeds = List Bytes

-- The calls of other programs that the instructions make.
pub data Cpi : Type 0 where
  -- from, to, lamports, space, owner
  create_account : Address → Address → ℕ → ℕ → Address → Cpi
  -- funding account, account, wallet, mint
  create_ata : Address → Address → Address → Address → Cpi
  -- from, to, authority, amount
  transfer : Address → Address → Address → ℕ → Cpi
  -- account, destination, authority
  close_token_account : Address → Address → Address → Cpi

-- The code outside this repository. An instruction that fails is rolled back by the runtime, so an
-- error carries no world.
pub record Platform : Type 0 where
  pub program_id : Address
  pub token_program_id : Address
  pub derive_address : Seeds → Address → Address
  pub unpack_token : Account → ProgramResult TokenAccount
  pub unpack_decimals : Account → ProgramResult ℕ
  pub unix_timestamp : ProgramResult ℤ
  pub minimum_balance : ℕ → ProgramResult ℕ
  -- `AccountView::close`
  pub close : Account → ProgramResult Account
  pub invoke_signed : List Seeds → Cpi → World → ProgramResult World
  -- The memory behind the instruction data, which an unchecked read can reach.
  pub beyond_data : Bytes

abbrev pub owned_by : World → AccountView → Address → Bool
owned_by w v id = (w v.address).owner == id
