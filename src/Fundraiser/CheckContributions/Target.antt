-- ===== src/Fundraiser/CheckContributions/Target.antt =====
-- `check_contributions` and `refund` (instructions/check_contributions.rs, refund.rs): who collects,
-- when, and that the two exclude one another.
use q2_26_accel_v1c70ryg0d.Prelude.{
  ℕ, ◌≤◌, ◌≡◌, ◌≢◌, true, false, ok, arith, through, via, guard-eq-ok, reject_if-eq-ok, not, ◌||◌,
  ◌==◌, ltb, Bool-cases, inl, inr, ap,
}
use q2_26_accel_v1c70ryg0d.Solana.{World, AccountView, Address, Platform, owned_by}
use q2_26_accel_v1c70ryg0d.Solana.Laws.{WritesOnly, TokensHaveLen, TokensOwned}
use q2_26_accel_v1c70ryg0d.Fundraiser.State.{
  Fundraiser, load_fundraiser, amount_to_raise, maker, mint_to_raise,
}
use q2_26_accel_v1c70ryg0d.Fundraiser.Utils.{
  validate_token_account, verify_fundraiser_pda, token_amount, fundraiser_pda,
}
use q2_26_accel_v1c70ryg0d.Fundraiser.CheckContributions.{
  CheckAccounts, check_contributions, ready_maker_ata, collect,
}
use q2_26_accel_v1c70ryg0d.Fundraiser.Refund.{RefundAccounts, refund}
use q2_26_accel_v1c70ryg0d.Fundraiser.Refund.Effects.{refund-parts}

module _ (p : Platform) where
  -- What `check_contributions` has checked when it goes on to pay `n` from the world `w1`.
  pub record IsCollectable (a : CheckAccounts) (w : World) (f : Fundraiser) : Type 0 where
    pub w1 : World
    pub held : ℕ
    pub signed : a.maker.is_signer ≡ true
    pub loaded : load_fundraiser w a.fundraiser ≡ ok f
    pub made_by : maker f ≡ a.maker.address
    pub derived : a.fundraiser.address ≡ fundraiser_pda p a.maker.address f.bump
    pub owned : (w a.vault.address).owner ≡ p.token_program_id
    pub ready : ready_maker_ata p a w ≡ ok w1
    pub holds : token_amount p w1 a.vault ≡ ok held
    pub reached : amount_to_raise f ≤ held

  validate-owner :
      (w : World) (v : AccountView) (owner mint : Address)
      → TokensOwned p
      → validate_token_account p w v owner mint ≡ ok tt
      → (w v.address).owner ≡ p.token_program_id
  unfolding validate_token_account
  validate-owner w v owner mint law h = elim (through (p.unpack_token (w v.address)) _ h) [
    | via t e _ ↦ law (w v.address) t e
  ]

  -- The maker collects only by signing, and only when the vault holds the goal; then all that
  -- it holds is paid out. Laws: TokensOwned.
  pub check_contributions-IsCollectable :
      (a : CheckAccounts) (w w' : World)
      → TokensOwned p
      → check_contributions p a w ≡ ok w'
      → (f : Fundraiser) × (r : IsCollectable a w f) × (collect p a f r.held r.w1 ≡ ok w')
  unfolding check_contributions verify_fundraiser_pda
  check_contributions-IsCollectable a w w' law h =
      let (signed, h1) = guard-eq-ok a.maker.is_signer _ _ h in
      let (_, h2) = guard-eq-ok (owned_by w a.fundraiser p.program_id) _ _ h1 in
      elim (through (load_fundraiser w a.fundraiser) _ h2) [
        | via f hf h3 ↦
            let (keys, h4) =
              reject_if-eq-ok
                (not (maker f == a.maker.address)
                  || not (mint_to_raise f == a.mint_to_raise.address))
                _ _ h3 in
            elim (through (verify_fundraiser_pda p a.fundraiser a.maker f.bump) _ h4) [
              | via _ pda h5 ↦
                  elim (through
                    (validate_token_account p w a.vault a.fundraiser.address
                      a.mint_to_raise.address)
                    _ h5) [
                      | via _ vault h6 ↦ elim (through (ready_maker_ata p a w) _ h6) [
                        | via w1 ready h7 ↦ elim (through (token_amount p w1 a.vault) _ h7) [
                          | via n holds h8 ↦
                              let (reached, h9) =
                                reject_if-eq-ok (ltb n (amount_to_raise f)) _ _ h8 in
                              (
                                f,
                                record {
                                  w1 = w1;
                                  held = n;
                                  signed = signed;
                                  loaded = hf;
                                  made_by = ground arith;
                                  derived = ground arith;
                                  owned = validate-owner w a.vault _ _ law vault;
                                  ready = ready;
                                  holds = holds;
                                  reached = ground arith;
                                },
                                h9,
                              )
                        ]
                      ]
                    ]
            ]
      ]

  -- Making the maker's token account ready leaves the vault alone.
  ready_maker_ata-vault :
      (a : CheckAccounts) (w w1 : World)
      → WritesOnly p
      → (w a.vault.address).owner ≡ p.token_program_id
      → a.vault.address ≢ a.maker.address
      → ready_maker_ata p a w ≡ ok w1
      → w1 a.vault.address ≡ w a.vault.address
  unfolding ready_maker_ata
  ready_maker_ata-vault a w w1 writes owned vault_maker h =
      elim (Bool-cases (owned_by w a.maker_ata p.token_program_id)) [
        | inl old ↦ ground arith
        | inr new ↦
            writes _ _ w w1 a.vault.address (rw new at h)
              (vault_maker, λ e. differ new (rw e at owned))
      ]
    where
      differ :
          owned_by w a.maker_ata p.token_program_id ≡ false
          → (w a.maker_ata.address).owner ≡ p.token_program_id
          → ⊥
      differ new owns = ground arith

  token_amount-same :
      (w w1 : World) (v : AccountView)
      → w1 v.address ≡ w v.address
      → token_amount p w1 v ≡ token_amount p w v
  unfolding token_amount
  token_amount-same w w1 v e = rw e

  -- In no state of the chain can both the maker collect and a contributor be refunded from the
  -- same vault of the same fundraiser, provided the vault is not the maker's wallet. Laws:
  -- WritesOnly, TokensHaveLen, TokensOwned.
  pub collect_excludes_refund :
      (a : CheckAccounts) (b : RefundAccounts) (w u v : World)
      → WritesOnly p
      → TokensHaveLen p
      → TokensOwned p
      → a.vault.address ≢ a.maker.address
      → b.vault ≡ a.vault
      → b.fundraiser ≡ a.fundraiser
      → check_contributions p a w ≡ ok u
      → ¬ (refund p b w ≡ ok v)
  collect_excludes_refund a b w u v writes lens tokens vault_maker same_vault same_fund collected
        refunded =
      let (f, r, _) = check_contributions-IsCollectable a w u tokens collected in
      let (g, c, s, _) = refund-parts p b w v lens refunded in
      let kept = ready_maker_ata-vault a w r.w1 writes r.owned vault_maker r.ready in
      let same_f : g ≡ f = cc (s.loaded, r.loaded, same_fund) in
      let same_goal : amount_to_raise g ≡ amount_to_raise f = ap amount_to_raise same_f in
      let same_amount = token_amount-same w r.w1 a.vault kept in
      let same_held : s.held ≡ r.held = cc (same_amount, s.holds, r.holds, same_vault) in
      omega (arith, s.short, r.reached, same_goal, same_held)
