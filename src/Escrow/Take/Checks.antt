-- ===== src/Escrow/Take/Checks.antt =====
-- What `take` (instructions/take.rs) has checked when it exchanges the tokens.
use q2_26_accel_v1c70ryg0d.Prelude.{
  ◌≡◌, true, ok, arith, through, via, guard-eq-ok, reject_if-eq-ok, not, ◌||◌, ◌==◌,
}
use q2_26_accel_v1c70ryg0d.Solana.{World, Platform, owned_by}
use q2_26_accel_v1c70ryg0d.Escrow.State.{Escrow, load_escrow, maker, mint_a, mint_b}
use q2_26_accel_v1c70ryg0d.Escrow.Utils.{escrow_pda, verify_escrow_pda, check_token_account}
use q2_26_accel_v1c70ryg0d.Escrow.Utils.Tokens.{Holds, check_token_account-Holds}
use q2_26_accel_v1c70ryg0d.Escrow.Take.{TakeAccounts, take_offer, exchange, check_token_accounts}

module _ (p : Platform) where
  pub record IsTakeable (a : TakeAccounts) (w : World) (e : Escrow) : Type 0 where
    pub signed : a.taker.is_signer ≡ true
    pub owned : (w a.escrow_account.address).owner ≡ p.program_id
    pub loaded : load_escrow w a.escrow_account ≡ ok e
    pub made_by : maker e ≡ a.maker.address
    pub gives : mint_a e ≡ a.mint_a.address
    pub wants : mint_b e ≡ a.mint_b.address
    pub derived : a.escrow_account.address ≡ escrow_pda p a.maker.address e.bump
    pub taker_a : Holds p w a.taker_ata_a.address a.taker.address a.mint_a.address
    pub taker_b : Holds p w a.taker_ata_b.address a.taker.address a.mint_b.address
    pub maker_b : Holds p w a.maker_ata_b.address a.maker.address a.mint_b.address
    pub vault : Holds p w a.escrow_ata.address a.escrow_account.address a.mint_a.address

  pub take_offer-IsTakeable :
      (a : TakeAccounts) (w w' : World)
      → take_offer p a w ≡ ok w'
      → (e : Escrow) × IsTakeable a w e × (exchange p a e w ≡ ok w')
  unfolding take_offer check_token_accounts verify_escrow_pda
  take_offer-IsTakeable a w w' h =
      let (signed, h1) = guard-eq-ok a.taker.is_signer _ _ h in
      let (owned, h2) = guard-eq-ok (owned_by w a.escrow_account p.program_id) _ _ h1 in
      elim (through (load_escrow w a.escrow_account) _ h2) [
        | via e loaded h3 ↦
            let (keys, h4) =
              reject_if-eq-ok
                (not (maker e == a.maker.address)
                  || (not (mint_a e == a.mint_a.address) || not (mint_b e == a.mint_b.address)))
                _ _ h3 in
            elim (through (verify_escrow_pda p a.escrow_account a.maker e.bump) _ h4) [
              | via _ pda h5 ↦ elim (through (check_token_accounts p a w) _ h5) [
                | via _ tokens h6 ↦
                    elim (through
                      (check_token_account p w a.taker_ata_a a.taker.address a.mint_a.address) _
                      tokens) [
                        | via _ ta g1 ↦
                            elim (through
                              (check_token_account p w a.taker_ata_b a.taker.address
                                a.mint_b.address)
                              _ g1) [
                                | via _ tb g2 ↦
                                    elim (through
                                      (check_token_account p w a.maker_ata_b a.maker.address
                                        a.mint_b.address)
                                      _ g2) [
                                        | via _ mb ea ↦ (
                                          e,
                                          record {
                                            signed = signed;
                                            owned = ground arith;
                                            loaded = loaded;
                                            made_by = ground arith;
                                            gives = ground arith;
                                            wants = ground arith;
                                            derived = ground arith;
                                            taker_a =
                                                check_token_account-Holds p w a.taker_ata_a _ _ ta;
                                            taker_b =
                                                check_token_account-Holds p w a.taker_ata_b _ _ tb;
                                            maker_b =
                                                check_token_account-Holds p w a.maker_ata_b _ _ mb;
                                            vault =
                                                check_token_account-Holds p w a.escrow_ata _ _ ea;
                                          },
                                          h6,
                                        )
                                      ]
                              ]
                      ]
              ]
            ]
      ]
