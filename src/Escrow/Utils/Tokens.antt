-- ===== src/Escrow/Utils/Tokens.antt =====
-- The checks on token accounts (refund.rs, take.rs) tell the accounts of different owners or mints
-- apart.
use q2_26_accel_v1c70ryg0d.Prelude.{◌≡◌, ◌≢◌, ok, length, arith, through, via, sym, ◌∙◌, ap}
use q2_26_accel_v1c70ryg0d.Solana.{World, AccountView, Address, Platform, TokenAccount}
use q2_26_accel_v1c70ryg0d.Solana.Laws.{TokensHaveLen, TokensOwned}
use q2_26_accel_v1c70ryg0d.Escrow.Utils.{check_token_account}

module _ (p : Platform) where
  -- The account at an address holds tokens of a mint for an owner.
  pub record Holds (w : World) (k owner mint : Address) : Type 0 where
    pub token : TokenAccount
    pub unpacked : p.unpack_token (w k) ≡ ok token
    pub owned : token.owner ≡ owner
    pub minted : token.mint ≡ mint

  pub check_token_account-Holds :
      (w : World) (v : AccountView) (owner mint : Address)
      → check_token_account p w v owner mint ≡ ok tt
      → Holds w v.address owner mint
  unfolding check_token_account
  check_token_account-Holds w v owner mint h = elim (through (p.unpack_token (w v.address)) _ h) [
    | via t e h1 ↦ record { token = t; unpacked = e; owned = ground arith; minted = ground arith }
  ]

  pub apart_by_owner :
      {w : World} {j k o m o' m' : Address} → Holds w j o m → Holds w k o' m' → o ≢ o' → j ≢ k
  apart_by_owner x y ne e = ne (cc (x.unpacked, y.unpacked, x.owned, y.owned))

  pub apart_by_mint :
      {w : World} {j k o m o' m' : Address} → Holds w j o m → Holds w k o' m' → m ≢ m' → j ≢ k
  apart_by_mint x y ne e = ne (cc (x.unpacked, y.unpacked, x.minted, y.minted))

  pub Holds-len :
      {w : World} {k o m : Address} → TokensHaveLen p → Holds w k o m → length (w k).bytes ≡ 165
  Holds-len {w} {k} law x = law (w k) x.token x.unpacked

  -- What does not belong to the token program is no token account.
  pub apart_by_program :
      {w : World} {k o m : Address} (j : Address)
      → TokensOwned p
      → Holds w k o m
      → (w j).owner ≢ p.token_program_id
      → k ≢ j
  apart_by_program {w} {k} j law x ne e =
      ne (ap (λ i. (w i).owner) (sym e) ∙ law (w k) x.token x.unpacked)
