-- ===== src/Fundraiser/Refund/Effects.antt =====
-- `refund` (instructions/refund.rs) as a whole: who may call it and when, and what it leaves.
use q2_26_accel_v1c70ryg0d.Prelude.{
  ℕ, ◌-◌, ◌<◌, ◌≤◌, ◌≡◌, ◌≢◌, true, length, ok, arith, through, via, guard-eq-ok, reject_if-eq-ok,
  not, ◌||◌, ◌==◌, ok_or,
}
use q2_26_accel_v1c70ryg0d.Prelude.Int.{ℤ}
use q2_26_accel_v1c70ryg0d.Prelude.Words.{checked_sub}
use q2_26_accel_v1c70ryg0d.Solana.{World, Platform, owned_by, arithmetic_overflow}
use q2_26_accel_v1c70ryg0d.Solana.Laws.{WritesOnly, TokensHaveLen, ClosesEmpty, apart_by_len}
use q2_26_accel_v1c70ryg0d.Fundraiser.State.{
  Fundraiser, load_fundraiser, store_fundraiser, set_current_amount, current_amount,
  amount_to_raise, Contributor, load_contributor, amount, maker, mint_to_raise,
}
use q2_26_accel_v1c70ryg0d.Fundraiser.State.Layout.{
  load_fundraiser-IsLaidOut, load_fundraiser-len, load_fundraiser-same, load-store_fundraiser,
  set_current_amount-IsLaidOut, load_contributor-len,
}
use q2_26_accel_v1c70ryg0d.Fundraiser.Utils.{
  validate_token_account, verify_fundraiser_pda, verify_contributor_pda, has_ended, token_amount,
  contributor_pda,
}
use q2_26_accel_v1c70ryg0d.Fundraiser.Utils.Close.{
  close_program_account_lem, close_program_account_ne,
}
use q2_26_accel_v1c70ryg0d.Fundraiser.Contribute.Account.{validate-len}
use q2_26_accel_v1c70ryg0d.Fundraiser.Refund.{RefundAccounts, refund, pay_back, check_failed}

module _ (p : Platform) where
  -- What `refund` has checked when it goes on to pay.
  pub record IsRefundable (a : RefundAccounts) (w : World) (f : Fundraiser) (c : Contributor)
      : Type 0 where
    pub now : ℤ
    pub held : ℕ
    pub signed : a.contributor.is_signer ≡ true
    pub loaded : load_fundraiser w a.fundraiser ≡ ok f
    pub recorded : load_contributor w a.contributor_account ≡ ok c
    pub derived :
        a.contributor_account.address
        ≡ contributor_pda p a.fundraiser.address a.contributor.address c.bump
    pub clock : p.unix_timestamp ≡ ok now
    pub ended : has_ended f now ≡ true
    pub holds : token_amount p w a.vault ≡ ok held
    pub short : held < amount_to_raise f
    pub vault_len : length (w a.vault.address).bytes ≡ 165
    pub ata_len : length (w a.contributor_ata.address).bytes ≡ 165

  pub refund-parts :
      (a : RefundAccounts) (w w' : World)
      → TokensHaveLen p
      → refund p a w ≡ ok w'
      → (f : Fundraiser) × (c : Contributor) × IsRefundable a w f c × (pay_back p a f c w ≡ ok w')
  unfolding refund check_failed verify_contributor_pda
  refund-parts a w w' lens h =
      let (signed, h1) = guard-eq-ok a.contributor.is_signer _ _ h in
      let (_, h2) =
        reject_if-eq-ok
          (not (owned_by w a.fundraiser p.program_id)
            || not (owned_by w a.contributor_account p.program_id))
          _ _ h1 in
      elim (through (load_fundraiser w a.fundraiser) _ h2) [
        | via f hf h3 ↦
            let (_, h4) =
              reject_if-eq-ok
                (not (maker f == a.maker.address)
                  || not (mint_to_raise f == a.mint_to_raise.address))
                _ _ h3 in
            elim (through (verify_fundraiser_pda p a.fundraiser a.maker f.bump) _ h4) [
              | via _ _ h5 ↦ elim (through (load_contributor w a.contributor_account) _ h5) [
                | via c hc h6 ↦
                    elim (through
                      (verify_contributor_pda p a.contributor_account a.fundraiser a.contributor
                        c.bump)
                      _ h6) [
                        | via _ pda h7 ↦
                            elim (through
                              (validate_token_account p w a.contributor_ata a.contributor.address
                                a.mint_to_raise.address)
                              _ h7) [
                                | via _ ata h8 ↦
                                    elim (through
                                      (validate_token_account p w a.vault a.fundraiser.address
                                        a.mint_to_raise.address)
                                      _ h8) [
                                        | via _ vault h9 ↦
                                            elim (through (check_failed p a f w) _ h9) [
                                              | via _ failed h10 ↦
                                                  elim (through p.unix_timestamp _ failed) [
                                                    | via now clock g1 ↦
                                                        let (ended, g2) =
                                                          guard-eq-ok (has_ended f now) _ _ g1 in
                                                        elim (through (token_amount p w a.vault) _
                                                          g2) [
                                                            | via n holds g3 ↦ (
                                                            f,
                                                            c,
                                                            record {
                                                            now = now;
                                                            held = n;
                                                            signed = signed;
                                                            loaded = hf;
                                                            recorded = hc;
                                                            derived = ground arith;
                                                            clock = clock;
                                                            ended = ended;
                                                            holds = holds;
                                                            short = ground arith;
                                                            vault_len =
                                                            validate-len p w a.vault _ _ lens vault;
                                                            ata_len =
                                                            validate-len p w a.contributor_ata _ _
                                                            lens ata;
                                                            },
                                                            h10,
                                                            )
                                                          ]
                                                  ]
                                            ]
                                      ]
                              ]
                      ]
              ]
            ]
      ]

  pay_back_lem :
      (a : RefundAccounts) (f : Fundraiser) (c : Contributor) (w w' : World)
      → WritesOnly p
      → ClosesEmpty p
      → IsRefundable a w f c
      → a.fundraiser.address ≢ a.contributor.address
      → a.contributor_account.address ≢ a.contributor.address
      → pay_back p a f c w ≡ ok w'
      → (amount c ≤ current_amount f)
        × (load_fundraiser w' a.fundraiser
            ≡ ok (set_current_amount f (current_amount f - amount c)))
        × (length (w' a.contributor_account.address).bytes ≡ 0)
  unfolding pay_back checked_sub
  pay_back_lem a f c w w' writes closes r fund_user part_user h =
      elim (through (p.invoke_signed _ _ w) _ h) [
        | via w1 moved h1 ↦
            elim (through (ok_or (checked_sub (current_amount f) (amount c)) arithmetic_overflow) _
              h1) [
                | via n e h2 ↦ elim (through (load_fundraiser w1 a.fundraiser) _ h2) [
                  | via f1 e1 h3 ↦
                      let l1 = load_fundraiser-len w a.fundraiser f r.loaded in
                      let l2 = load_contributor-len w a.contributor_account c r.recorded in
                      let fund_vault =
                        apart_by_len w a.fundraiser.address a.vault.address l1 r.vault_len
                          (omega arith) in
                      let fund_ata =
                        apart_by_len w a.fundraiser.address a.contributor_ata.address l1 r.ata_len
                          (omega arith) in
                      let fund_part =
                        apart_by_len w a.fundraiser.address a.contributor_account.address l1 l2
                          (omega arith) in
                      let kept =
                        writes _ _ w w1 a.fundraiser.address moved (fund_vault, fund_ata) in
                      let same = load_fundraiser-same w w1 a.fundraiser kept in
                      let laid = load_fundraiser-IsLaidOut w a.fundraiser f r.loaded in
                      let w2 : World = store_fundraiser w1 a.fundraiser (set_current_amount f1 n) in
                      let stored =
                        load-store_fundraiser w1 a.fundraiser (set_current_amount f n)
                          (set_current_amount-IsLaidOut f n laid) in
                      let empty =
                        (close_program_account_lem p w2 w' a.contributor_account a.contributor
                          closes part_user h3).3 in
                      let other =
                        close_program_account_ne p w2 w' a.contributor_account a.contributor
                          a.fundraiser.address fund_part fund_user h3 in
                      let last = load_fundraiser-same w2 w' a.fundraiser other in
                      let value : n ≡ current_amount f - amount c = ground arith in
                      (ground arith, rw (← value) (cc), empty)
                ]
              ]
      ]

  -- A refund succeeds only for the signing contributor, after the end, while the vault holds
  -- less than the goal. It takes exactly the contributor's recorded amount off the
  -- fundraiser's total, leaves the rest of the fundraiser, and empties the contributor's
  -- account. Neither account of the program may be the contributor's wallet. Laws: WritesOnly,
  -- TokensHaveLen, ClosesEmpty.
  pub refund-IsRefundable :
      (a : RefundAccounts) (w w' : World)
      → WritesOnly p
      → TokensHaveLen p
      → ClosesEmpty p
      → a.fundraiser.address ≢ a.contributor.address
      → a.contributor_account.address ≢ a.contributor.address
      → refund p a w ≡ ok w'
      → (f : Fundraiser) × (c : Contributor) × IsRefundable a w f c
        × (amount c ≤ current_amount f)
        × (load_fundraiser w' a.fundraiser
            ≡ ok (set_current_amount f (current_amount f - amount c)))
        × (length (w' a.contributor_account.address).bytes ≡ 0)
  refund-IsRefundable a w w' writes lens closes fund_user part_user h =
      let (f, c, r, paid) = refund-parts a w w' lens h in
      let (enough, stored, empty) =
        pay_back_lem a f c w w' writes closes r fund_user part_user paid in
      (f, c, r, enough, stored, empty)
