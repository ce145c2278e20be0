-- ===== src/Fundraiser/Contribute/Whole.antt =====
-- The whole handler (pinocchio-fundraiser/src/instructions/contribute.rs).
use q2_26_accel_v1c70ryg0d.Prelude.{
  ℕ, ◌≡◌, true, length, ok, arith, through, via, guard-eq-ok, ok_or, get_elem?, ◌==◌,
}
use q2_26_accel_v1c70ryg0d.Prelude.Words.{Bytes}
use q2_26_accel_v1c70ryg0d.Solana.{World, Platform, owned_by, panicked}
use q2_26_accel_v1c70ryg0d.Fundraiser.State.{
  Fundraiser, load_fundraiser, Contributor, load_contributor, mint_to_raise, maker,
}
use q2_26_accel_v1c70ryg0d.Fundraiser.Utils.{verify_fundraiser_pda_with_maker, read_u64}
use q2_26_accel_v1c70ryg0d.Fundraiser.Contribute.{
  ContributeAccounts, create_contributor_if_needed, contribute_to, contribute,
}
-- The amount in the instruction data.
use q2_26_accel_v1c70ryg0d.Fundraiser.Contribute.Effects.{amount_of}

module _ (p : Platform) where
  -- The first half of `contribute`: its guards, and the world in which it goes on.
  pub contribute-parts :
      (a : ContributeAccounts) (input : Bytes) (w w' : World)
      → contribute p a input w ≡ ok w'
      → (f : Fundraiser) × (bump : ℕ) × (w1 : World) × (load_fundraiser w a.fundraiser ≡ ok f)
        × (a.contributor.is_signer ≡ true)
        × ((w a.fundraiser.address).owner ≡ p.program_id)
        × (create_contributor_if_needed p a.contributor a.fundraiser a.contributor_account bump w
            ≡ ok w1)
        × (contribute_to p a (amount_of input) f w1 ≡ ok w')
  unfolding contribute read_u64
  contribute-parts a input w w' h =
      let (_, h1) = guard-eq-ok (length input == 9) _ _ h in
      let (signed, h2) = guard-eq-ok a.contributor.is_signer _ _ h1 in
      let (owned, h3) = guard-eq-ok (owned_by w a.fundraiser p.program_id) _ _ h2 in
      elim (through (ok_or (get_elem? input 0) panicked) _ h3) [
        | via bump _ h4 ↦ elim (through (read_u64 input 1) _ h4) [
          | via n e h5 ↦ elim (through (load_fundraiser w a.fundraiser) _ h5) [
            | via f hf h6 ↦
                let (_, h7) = guard-eq-ok (mint_to_raise f == a.mint_to_raise.address) _ _ h6 in
                elim (through (verify_fundraiser_pda_with_maker p a.fundraiser (maker f) f.bump) _
                  h7) [
                    | via _ _ h8 ↦
                        elim (through
                          (create_contributor_if_needed p a.contributor a.fundraiser
                            a.contributor_account bump w)
                          _ h8) [
                            | via w1 made h9 ↦
                                let word : amount_of input ≡ n = ground arith in
                                (f, bump, w1, hf, signed, ground arith, made, rw word h9)
                          ]
                  ]
          ]
        ]
      ]

  pub contribute_to-load :
      (a : ContributeAccounts) (n : ℕ) (f : Fundraiser) (w w' : World)
      → contribute_to p a n f w ≡ ok w'
      → (c : Contributor) × (load_contributor w a.contributor_account ≡ ok c)
  unfolding contribute_to
  contribute_to-load a n f w w' h = elim (through (load_contributor w a.contributor_account) _ h) [
    | via c e _ ↦ (c, e)
  ]
