-- ===== src/Fundraiser/Signers.antt =====
-- Authorisation across the whole program (src/lib.rs).
use q2_26_accel_v1c70ryg0d.Prelude.{
  ℕ, ◌<◌, ◌≡◌, true, List, ◌∷◌, ok, arith, through, via, guard-eq-ok, ◌==◌,
}
use q2_26_accel_v1c70ryg0d.Prelude.Words.{Bytes}
use q2_26_accel_v1c70ryg0d.Solana.{Address, AccountView, World, Platform}
use q2_26_accel_v1c70ryg0d.Fundraiser.Initialize.{process_initialize, initialize}
use q2_26_accel_v1c70ryg0d.Fundraiser.Contribute.{process_contribute, contribute}
use q2_26_accel_v1c70ryg0d.Fundraiser.CheckContributions.{
  process_check_contributions, check_contributions,
}
use q2_26_accel_v1c70ryg0d.Fundraiser.Refund.{process_refund, refund}
use q2_26_accel_v1c70ryg0d.Fundraiser.{
  FundraiserInstruction, instruction_of, process, process_instruction,
}

module _ (p : Platform) (first : AccountView) (rest : List AccountView) (input : Bytes)
    (w w' : World) where
  initialize-signed : process_initialize p (first ∷ rest) input w ≡ ok w' → first.is_signer ≡ true
  unfolding process_initialize initialize
  initialize-signed h = ground arith

  contribute-signed : process_contribute p (first ∷ rest) input w ≡ ok w' → first.is_signer ≡ true
  unfolding process_contribute contribute
  contribute-signed h = ground arith

  check-signed :
      process_check_contributions p (first ∷ rest) input w ≡ ok w' → first.is_signer ≡ true
  unfolding process_check_contributions check_contributions
  check-signed h = ground arith

  refund-signed : process_refund p (first ∷ rest) input w ≡ ok w' → first.is_signer ≡ true
  unfolding process_refund refund
  refund-signed h = ground arith

process-signed :
    (p : Platform) (i : FundraiserInstruction) (first : AccountView) (rest : List AccountView)
    (input : Bytes) (w w' : World)
    → process p i (first ∷ rest) input w ≡ ok w'
    → first.is_signer ≡ true
unfolding process
process-signed p FundraiserInstruction.initialize first rest input w w' h =
    initialize-signed p first rest input w w' h
process-signed p FundraiserInstruction.contribute first rest input w w' h =
    contribute-signed p first rest input w w' h
process-signed p FundraiserInstruction.check_contributions first rest input w w' h =
    check-signed p first rest input w w' h
process-signed p FundraiserInstruction.refund first rest input w w' h =
    refund-signed p first rest input w w' h

-- Whatever the instruction, the program changes nothing unless it runs under its own address,
-- the tag is one of the four, and the first account has signed.
pub process_instruction-signed :
    (p : Platform) (id : Address) (first : AccountView) (rest : List AccountView) (tag : ℕ)
    (input : Bytes) (w w' : World)
    → process_instruction p id (first ∷ rest) (tag ∷ input) w ≡ ok w'
    → (id ≡ p.program_id) × (tag < 4) × (first.is_signer ≡ true)
unfolding process_instruction
process_instruction-signed p id first rest tag input w w' h =
    let (own, h1) = guard-eq-ok (id == p.program_id) _ _ h in
    elim (through (instruction_of tag) _ h1) [
      | via i known h2 ↦
          (ground arith, tag_known tag i known, process-signed p i first rest input w w' h2)
    ]
  where
    tag_known : (tag : ℕ) (i : FundraiserInstruction) → instruction_of tag ≡ ok i → tag < 4
    tag_known tag i h = ground arith
