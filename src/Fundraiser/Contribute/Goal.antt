-- ===== src/Fundraiser/Contribute/Goal.antt =====
-- Small goals: initialize.rs accepts every goal above three tokens, and contribute.rs takes at least
-- one token and at most a tenth of the goal.
use q2_26_accel_v1c70ryg0d.Prelude.{ℕ, ◌*◌, ◌^◌, ◌<◌, ◌≡◌, ◌≢◌, ok, arith, ap, Bool-cases, inl, inr}
use q2_26_accel_v1c70ryg0d.Prelude.Words.{Bytes}
use q2_26_accel_v1c70ryg0d.Solana.{World, Platform, owned_by, Address}
use q2_26_accel_v1c70ryg0d.Solana.Laws.{WritesOnly, TokensHaveLen}
use q2_26_accel_v1c70ryg0d.Fundraiser.State.{Fundraiser, load_fundraiser, amount_to_raise}
use q2_26_accel_v1c70ryg0d.Fundraiser.Contribute.{
  ContributeAccounts, create_contributor_if_needed, contribute,
}
use q2_26_accel_v1c70ryg0d.Fundraiser.Contribute.Account.{
  create_contributor_if_needed_lem, create_contributor_ne,
}
use q2_26_accel_v1c70ryg0d.Fundraiser.Contribute.Whole.{contribute-parts, contribute_to-load}
use q2_26_accel_v1c70ryg0d.Fundraiser.Contribute.Effects.{amount_of, contribute_to-IsRecorded}

module _ (p : Platform) where
  create_contributor_if_needed_ne :
      (a : ContributeAccounts) (bump : ℕ) (w w1 : World) (k : Address)
      → WritesOnly p
      → k ≢ a.contributor_account.address
      → k ≢ a.contributor.address
      → create_contributor_if_needed p a.contributor a.fundraiser a.contributor_account bump w
        ≡ ok w1
      → w1 k ≡ w k
  unfolding create_contributor_if_needed
  create_contributor_if_needed_ne a bump w w1 k writes part user h =
      elim (Bool-cases (owned_by w a.contributor_account p.program_id)) [
        | inl old ↦ ground arith
        | inr new ↦ create_contributor_ne p a bump w w1 k writes part user (rw new at h)
      ]

  -- A fundraiser whose goal is below ten whole tokens can never receive anything: every
  -- contribution to it fails. The mint must not be the contributor's wallet or account, nor
  -- the fundraiser the wallet. Laws: WritesOnly, TokensHaveLen.
  pub contribute_never :
      (a : ContributeAccounts) (input : Bytes) (w w' : World) (f : Fundraiser) (decimals : ℕ)
      → WritesOnly p
      → TokensHaveLen p
      → a.fundraiser.address ≢ a.contributor.address
      → a.mint_to_raise.address ≢ a.contributor_account.address
      → a.mint_to_raise.address ≢ a.contributor.address
      → load_fundraiser w a.fundraiser ≡ ok f
      → p.unpack_decimals (w a.mint_to_raise.address) ≡ ok decimals
      → amount_to_raise f < 10 * 10 ^ decimals
      → ¬ (contribute p a input w ≡ ok w')
  contribute_never a input w w' f decimals writes lens apart part user hf mint small h =
      let (g, bump, w1, hg, signed, owned, made, rest) = contribute-parts p a input w w' h in
      let n = amount_of input in
      let (c, hc) = contribute_to-load p a n g w1 w' rest in
      let (kept, _) =
        create_contributor_if_needed_lem p a bump w w1 g c writes owned apart hg hc made in
      let same =
        create_contributor_if_needed_ne a bump w w1 a.mint_to_raise.address writes part user made in
      let r = contribute_to-IsRecorded p a n g w1 w' writes lens kept rest in
      let same_f : g ≡ f = cc in
      let same_mint : r.decimals ≡ decimals = cc (ap p.unpack_decimals same, r.mint) in
      let goal : amount_to_raise g ≡ amount_to_raise f = ap amount_to_raise same_f in
      let power : 10 ^ r.decimals ≡ 10 ^ decimals = ap (◌^◌ 10) same_mint in
      omega (arith, r.admissible.one_token, r.admissible.at_most_tenth, goal, power)
