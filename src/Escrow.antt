-- ===== src/Escrow.antt =====
-- accel-p-escrow: a maker offers an amount of one token for an amount of another. `State` is
-- src/state/escrow.rs, each instruction has a module, and `Utils` holds what two of them share. Here is
-- the dispatch of src/lib.rs and src/instructions/mod.rs.
pub mod State
pub mod Utils
pub mod Make
pub mod Take
pub mod Refund
pub mod Once
mod Tests
use q2_26_accel_v1c70ryg0d.Prelude.{
  ℕ, List, [], ◌∷◌, ◌==◌, if◌then◌else◌, ok, err, ◌>>=◌, ◌>>◌, guard,
}
use q2_26_accel_v1c70ryg0d.Prelude.Words.{Bytes}
use q2_26_accel_v1c70ryg0d.Solana.{
  Address, AccountView, World, ProgramResult, Platform, invalid_instruction_data, panicked,
}
use Make.{process_make_instruction}
use Take.{process_take_instruction}
use Refund.{process_refund_instruction}

pub data EscrowInstruction : Type 0 where
  make refund take : EscrowInstruction

pub instruction_of : ℕ → ProgramResult EscrowInstruction
instruction_of tag =
    if tag == 0
    then ok make
    else if tag == 1
    then ok refund
    else if tag == 2
    then ok take
    else err invalid_instruction_data

module _ (p : Platform) where
  pub process : EscrowInstruction → List AccountView → Bytes → World → ProgramResult World
  process make accounts input w = process_make_instruction p accounts input w
  process refund accounts input w = process_refund_instruction p accounts input w
  process take accounts input w = process_take_instruction p accounts input w

  pub process_instruction : Address → List AccountView → Bytes → World → ProgramResult World
  unfolding instruction_of process
  process_instruction program_id accounts [] w = do
    guard (program_id == p.program_id) panicked
    err invalid_instruction_data
  process_instruction program_id accounts (tag ∷ input) w = do
    guard (program_id == p.program_id) panicked
    instruction ← instruction_of tag
    process instruction accounts input w
