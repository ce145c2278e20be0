-- ===== src/Fundraiser/Contribute/Account.antt =====
-- What a successful `contribute` (instructions/contribute.rs) leaves in the two accounts of the
-- program.
use q2_26_accel_v1c70ryg0d.Prelude.{
  ℕ, ◌≡◌, ◌≢◌, ◌∙◌, sym, refl, false, length, ok, err, arith, inl, inr, through, via, Bool-cases,
  if◌then◌else◌,
}
use q2_26_accel_v1c70ryg0d.Prelude.Words.{from_le_bytes, to_le_bytes}
use q2_26_accel_v1c70ryg0d.Solana.{World, Address, AccountView, Platform, owned_by}
use q2_26_accel_v1c70ryg0d.Solana.Laws.{WritesOnly, TokensHaveLen, update_ne}
use q2_26_accel_v1c70ryg0d.Fundraiser.State.{
  Fundraiser, load_fundraiser, store_fundraiser, set_current_amount, Contributor, load_contributor,
  store_contributor, amount, set_amount, contributor_len,
}
use q2_26_accel_v1c70ryg0d.Fundraiser.State.Layout.{
  load_fundraiser-IsLaidOut, load_fundraiser-same, load-store_fundraiser,
  set_current_amount-IsLaidOut, load_contributor-same, load-store_contributor, set_amount-len,
}
use q2_26_accel_v1c70ryg0d.Fundraiser.Utils.{validate_token_account, verify_contributor_pda}
use q2_26_accel_v1c70ryg0d.Fundraiser.Contribute.{
  ContributeAccounts, create_contributor, create_contributor_if_needed, record_contribution,
}

module _ (p : Platform) where
  pub validate-len :
      (w : World) (v : AccountView) (owner mint : Address)
      → TokensHaveLen p
      → validate_token_account p w v owner mint ≡ ok tt
      → length (w v.address).bytes ≡ 165
  unfolding validate_token_account
  validate-len w v owner mint law h = elim (through (p.unpack_token (w v.address)) _ h) [
    | via t e _ ↦ law (w v.address) t e
  ]

  store_contributor_ne :
      (w : World) (v : AccountView) (c : Contributor) (k : Address)
      → k ≢ v.address
      → store_contributor w v c k ≡ w k
  unfolding store_contributor
  store_contributor_ne w v c k h = update_ne w v.address k _ h

  store_fundraiser_ne :
      (w : World) (v : AccountView) (f : Fundraiser) (k : Address)
      → k ≢ v.address
      → store_fundraiser w v f k ≡ w k
  unfolding store_fundraiser
  store_fundraiser_ne w v f k h = update_ne w v.address k _ h

  -- The accounts of the program are not the token accounts of the transfer.
  pub record AreApart (a : ContributeAccounts) : Type 0 where
    pub fund_ata : a.fundraiser.address ≢ a.contributor_ata.address
    pub fund_vault : a.fundraiser.address ≢ a.vault.address
    pub part_ata : a.contributor_account.address ≢ a.contributor_ata.address
    pub part_vault : a.contributor_account.address ≢ a.vault.address
    pub fund_part : a.fundraiser.address ≢ a.contributor_account.address

  pub record_contribution_lem :
      (a : ContributeAccounts) (n m r : ℕ) (w w' : World) (f : Fundraiser) (c : Contributor)
      → WritesOnly p
      → AreApart a
      → load_fundraiser w a.fundraiser ≡ ok f
      → load_contributor w a.contributor_account ≡ ok c
      → record_contribution p a n (m, r) w ≡ ok w'
      → (load_fundraiser w' a.fundraiser ≡ ok (set_current_amount f r))
        × (load_contributor w' a.contributor_account ≡ ok (set_amount c m))
  unfolding record_contribution
  record_contribution_lem a n m r w w' f c writes d hf hc h =
      elim (through (p.invoke_signed _ _ w) _ h) [
        | via w1 moved h1 ↦ elim (through (load_fundraiser w1 a.fundraiser) _ h1) [
          | via f1 e1 h2 ↦
              let w2 : World = store_fundraiser w1 a.fundraiser (set_current_amount f1 r) in
              elim (through (load_contributor w2 a.contributor_account) _ h2) [
                | via c1 e2 h3 ↦
                    let part_fund = λ (e : a.contributor_account.address ≡ a.fundraiser.address).
                      d.fund_part (sym e) in
                    let kept_f =
                      writes _ _ w w1 a.fundraiser.address moved (d.fund_ata, d.fund_vault) in
                    let kept_c =
                      store_fundraiser_ne w1 a.fundraiser (set_current_amount f1 r) _ part_fund
                      ∙ writes _ _ w w1 a.contributor_account.address moved
                          (d.part_ata, d.part_vault) in
                    let same_f = load_fundraiser-same w w1 a.fundraiser kept_f in
                    let same_c = load_contributor-same w w2 a.contributor_account kept_c in
                    let laid = load_fundraiser-IsLaidOut w a.fundraiser f hf in
                    let w3 : World = store_contributor w2 a.contributor_account (set_amount c1 m) in
                    let last = load_fundraiser-same w2 w3 a.fundraiser (
                      store_contributor_ne w2 a.contributor_account (set_amount c1 m) _
                        d.fund_part) in
                    let stored_f =
                      load-store_fundraiser w1 a.fundraiser (set_current_amount f r)
                        (set_current_amount-IsLaidOut f r laid) in
                    let stored_c =
                      load-store_contributor w2 a.contributor_account (set_amount c1 m)
                        (set_amount-len c1 m) in
                    (cc, cc)
              ]
        ]
      ]

  -- What the contributor had given before: nothing, if the account is not the program's yet.
  abbrev pub given_before : ContributeAccounts → World → ℕ
  given_before a w =
      if owned_by w a.contributor_account p.program_id
      then elim (load_contributor w a.contributor_account) [ ok c ↦ amount c | err _ ↦ 0 ]
      else 0

  amount-opened :
      (c : Contributor) (bump : ℕ) → amount (record (set_amount c 0) { bump = bump }) ≡ 0
  unfolding amount set_amount from_le_bytes to_le_bytes
  amount-opened c bump = refl

  create_contributor_lem :
      (a : ContributeAccounts) (bump : ℕ) (w w1 : World) (f : Fundraiser) (c : Contributor)
      → WritesOnly p
      → a.fundraiser.address ≢ a.contributor_account.address
      → a.fundraiser.address ≢ a.contributor.address
      → load_fundraiser w a.fundraiser ≡ ok f
      → load_contributor w1 a.contributor_account ≡ ok c
      → create_contributor p a.contributor a.fundraiser a.contributor_account bump w ≡ ok w1
      → (load_fundraiser w1 a.fundraiser ≡ ok f) × (amount c ≡ 0)
  unfolding create_contributor
  create_contributor_lem a bump w w1 f c writes fund_part fund_user hf hc h =
      elim (through (verify_contributor_pda p a.contributor_account a.fundraiser a.contributor bump)
        _ h) [
          | via _ _ h1 ↦ elim (through (p.minimum_balance contributor_len) _ h1) [
            | via _ _ h2 ↦ elim (through (p.invoke_signed _ _ w) _ h2) [
              | via v created h3 ↦ elim (through (load_contributor v a.contributor_account) _ h3) [
                | via c1 e1 h4 ↦
                    let c2 : Contributor = record (set_amount c1 0) { bump = bump } in
                    let kept = writes _ _ w v a.fundraiser.address created (fund_user, fund_part) in
                    let other =
                      store_contributor_ne v a.contributor_account c2 a.fundraiser.address
                        fund_part in
                    let w2 : World = store_contributor v a.contributor_account c2 in
                    let same = load_fundraiser-same w w2 a.fundraiser (other ∙ kept) in
                    let stored =
                      load-store_contributor v a.contributor_account c2 (set_amount-len c1 0) in
                    let zero_amount = amount-opened c1 bump in (cc, ground arith)
              ]
            ]
          ]
        ]

  pub create_contributor_if_needed_lem :
      (a : ContributeAccounts) (bump : ℕ) (w w1 : World) (f : Fundraiser) (c : Contributor)
      → WritesOnly p
      → (w a.fundraiser.address).owner ≡ p.program_id
      → a.fundraiser.address ≢ a.contributor.address
      → load_fundraiser w a.fundraiser ≡ ok f
      → load_contributor w1 a.contributor_account ≡ ok c
      → create_contributor_if_needed p a.contributor a.fundraiser a.contributor_account bump w
        ≡ ok w1
      → (load_fundraiser w1 a.fundraiser ≡ ok f) × (amount c ≡ given_before a w)
  unfolding create_contributor_if_needed
  create_contributor_if_needed_lem a bump w w1 f c writes owned fund_user hf hc h =
      elim (Bool-cases (owned_by w a.contributor_account p.program_id)) [
        | inl old ↦ (ground arith, ground arith)
        | inr new ↦
            let fund_part = λ (e : a.fundraiser.address ≡ a.contributor_account.address).
              differ new (rw e at owned) in
            let made = rw new at h in
            let (kept, nothing) =
              create_contributor_lem a bump w w1 f c writes fund_part fund_user hf hc made in
            (kept, rw new nothing)
      ]
    where
      differ :
          owned_by w a.contributor_account p.program_id ≡ false
          → (w a.contributor_account.address).owner ≡ p.program_id
          → ⊥
      differ new owns = ground arith

  pub create_contributor_ne :
      (a : ContributeAccounts) (bump : ℕ) (w w1 : World) (k : Address)
      → WritesOnly p
      → k ≢ a.contributor_account.address
      → k ≢ a.contributor.address
      → create_contributor p a.contributor a.fundraiser a.contributor_account bump w ≡ ok w1
      → w1 k ≡ w k
  unfolding create_contributor
  create_contributor_ne a bump w w1 k writes part user h =
      elim (through (verify_contributor_pda p a.contributor_account a.fundraiser a.contributor bump)
        _ h) [
          | via _ _ h1 ↦ elim (through (p.minimum_balance contributor_len) _ h1) [
            | via _ _ h2 ↦ elim (through (p.invoke_signed _ _ w) _ h2) [
              | via v created h3 ↦ elim (through (load_contributor v a.contributor_account) _ h3) [
                | via c1 e1 h4 ↦
                    let c2 : Contributor = record (set_amount c1 0) { bump = bump } in
                    let kept = writes _ _ w v k created (user, part) in
                    let other = store_contributor_ne v a.contributor_account c2 k part in
                    ground arith
              ]
            ]
          ]
        ]
