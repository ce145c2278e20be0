-- ===== src/Fundraiser.antt =====
-- pinocchio-fundraiser: a crowdfunding program. `State` is src/state, `Utils` is src/constants.rs,
-- src/error.rs and src/instructions/utils.rs, and each instruction has a module. Here is the dispatch
-- of src/lib.rs and src/instructions/mod.rs.
pub mod State
pub mod Utils
pub mod Initialize
pub mod Contribute
pub mod CheckContributions
pub mod Refund
pub mod Signers
mod Tests
use q2_26_accel_v1c70ryg0d.Prelude.{
  ℕ, List, [], ◌∷◌, ◌==◌, if◌then◌else◌, ok, err, ◌>>=◌, ◌>>◌, guard,
}
use q2_26_accel_v1c70ryg0d.Prelude.Words.{Bytes}
use q2_26_accel_v1c70ryg0d.Solana.{
  Address, AccountView, World, ProgramResult, Platform, invalid_instruction_data, panicked,
}
use Initialize.{process_initialize}
use Contribute.{process_contribute}
use CheckContributions.{process_check_contributions}
use Refund.{process_refund}

pub data FundraiserInstruction : Type 0 where
  initialize contribute check_contributions refund : FundraiserInstruction

pub instruction_of : ℕ → ProgramResult FundraiserInstruction
instruction_of tag =
    if tag == 0
    then ok initialize
    else if tag == 1
    then ok contribute
    else if tag == 2
    then ok check_contributions
    else if tag == 3
    then ok refund
    else err invalid_instruction_data

module _ (p : Platform) where
  pub process : FundraiserInstruction → List AccountView → Bytes → World → ProgramResult World
  process initialize accounts input w = process_initialize p accounts input w
  process contribute accounts input w = process_contribute p accounts input w
  process check_contributions accounts input w = process_check_contributions p accounts input w
  process refund accounts input w = process_refund p accounts input w

  pub process_instruction : Address → List AccountView → Bytes → World → ProgramResult World
  unfolding instruction_of process
  process_instruction program_id accounts [] w = do
    guard (program_id == p.program_id) panicked
    err invalid_instruction_data
  process_instruction program_id accounts (tag ∷ input) w = do
    guard (program_id == p.program_id) panicked
    instruction ← instruction_of tag
    process instruction accounts input w
