-- ===== src/Escrow/Refund/Effects.antt =====
-- What a successful `refund` (instructions/refund.rs) has checked and leaves behind.
use q2_26_accel_v1c70ryg0d.Prelude.{
  ◌+◌, ◌≤◌, ◌≡◌, ◌≢◌, ◌∙◌, sym, true, ok, length, arith, through, via, guard-eq-ok, reject_if-eq-ok,
  not, ◌||◌, ◌==◌,
}
use q2_26_accel_v1c70ryg0d.Solana.{World, Platform, owned_by}
use q2_26_accel_v1c70ryg0d.Solana.Laws.{
  WritesOnly, TokensHaveLen, TokensOwned, TransferMoves, ClosesEmpty, balance, balance-same,
  apart_by_len,
}
use q2_26_accel_v1c70ryg0d.Escrow.State.{Escrow, load_escrow, maker, mint_a, amount_to_give}
use q2_26_accel_v1c70ryg0d.Escrow.State.Layout.{load_escrow-len}
use q2_26_accel_v1c70ryg0d.Escrow.Utils.{escrow_pda, verify_escrow_pda, check_token_account}
use q2_26_accel_v1c70ryg0d.Escrow.Utils.Close.{close_escrow_account_lem, close_escrow_account_ne}
use q2_26_accel_v1c70ryg0d.Escrow.Utils.Tokens.{
  Holds, Holds-len, check_token_account-Holds, apart_by_owner, apart_by_program,
}
use q2_26_accel_v1c70ryg0d.Escrow.Refund.{RefundAccounts, refund, give_back}

module _ (p : Platform) where
  pub record IsRefundable (a : RefundAccounts) (w : World) (e : Escrow) : Type 0 where
    pub signed : a.maker.is_signer ≡ true
    pub owned : (w a.escrow_account.address).owner ≡ p.program_id
    pub loaded : load_escrow w a.escrow_account ≡ ok e
    pub made_by : maker e ≡ a.maker.address
    pub gives : mint_a e ≡ a.mint_a.address
    pub derived : a.escrow_account.address ≡ escrow_pda p a.maker.address e.bump
    pub maker_a : Holds p w a.maker_ata.address a.maker.address a.mint_a.address
    pub vault : Holds p w a.escrow_ata.address a.escrow_account.address a.mint_a.address

  pub refund-IsRefundable :
      (a : RefundAccounts) (w w' : World)
      → refund p a w ≡ ok w'
      → (e : Escrow) × IsRefundable a w e × (give_back p a e w ≡ ok w')
  unfolding refund verify_escrow_pda
  refund-IsRefundable a w w' h =
      let (signed, h1) = guard-eq-ok a.maker.is_signer _ _ h in
      let (owned, h2) = guard-eq-ok (owned_by w a.escrow_account p.program_id) _ _ h1 in
      elim (through (load_escrow w a.escrow_account) _ h2) [
        | via e loaded h3 ↦
            let (keys, h4) =
              reject_if-eq-ok
                (not (maker e == a.maker.address) || not (mint_a e == a.mint_a.address)) _ _ h3 in
            elim (through (verify_escrow_pda p a.escrow_account a.maker e.bump) _ h4) [
              | via _ pda h5 ↦
                  elim (through
                    (check_token_account p w a.maker_ata a.maker.address a.mint_a.address) _ h5) [
                      | via _ ma h6 ↦
                          elim (through
                            (check_token_account p w a.escrow_ata a.escrow_account.address
                              a.mint_a.address)
                            _ h6) [
                              | via _ ea h7 ↦ (
                                e,
                                record {
                                  signed = signed;
                                  owned = ground arith;
                                  loaded = loaded;
                                  made_by = ground arith;
                                  gives = ground arith;
                                  derived = ground arith;
                                  maker_a = check_token_account-Holds p w a.maker_ata _ _ ma;
                                  vault = check_token_account-Holds p w a.escrow_ata _ _ ea;
                                },
                                h7,
                              )
                            ]
                    ]
            ]
      ]

  pub record IsGivenBack (a : RefundAccounts) (e : Escrow) (w w' : World) : Type 0 where
    pub vault_pays : amount_to_give e ≤ balance p w a.escrow_ata.address
    pub maker_gets :
        balance p w' a.maker_ata.address ≡ balance p w a.maker_ata.address + amount_to_give e
    pub emptied : length (w' a.escrow_account.address).bytes ≡ 0
    pub unlocked : (w' a.escrow_account.address).lamports ≡ 0

  give_back-IsGivenBack :
      (a : RefundAccounts) (e : Escrow) (w w' : World)
      → WritesOnly p
      → TokensHaveLen p
      → TokensOwned p
      → TransferMoves p
      → ClosesEmpty p
      → a.maker.address ≢ a.escrow_account.address
      → (w a.maker.address).owner ≢ p.token_program_id
      → IsRefundable a w e
      → give_back p a e w ≡ ok w'
      → IsGivenBack a e w w'
  unfolding give_back
  give_back-IsGivenBack a e w w' writes lens tokens moves closes apart wallet r h =
      elim (through (p.invoke_signed _ _ w) _ h) [
        | via w1 t1 h1 ↦ elim (through (p.invoke_signed _ _ w1) _ h1) [
          | via w2 t2 h2 ↦
              let ma = a.maker_ata.address in
              let ea = a.escrow_ata.address in
              let ma_ea = apart_by_owner p r.maker_a r.vault apart in
              let size = load_escrow-len w a.escrow_account e r.loaded in
              let ma_x =
                apart_by_len w ma a.escrow_account.address (Holds-len p lens r.maker_a) size
                  (omega arith) in
              let ma_m = apart_by_program p a.maker.address tokens r.maker_a wallet in
              let (enough, _, to_a) = moves _ ea ma _ _ w w1 t1 (λ q. ma_ea (sym q)) in
              let ma_2 = writes _ _ w1 w2 ma t2 (ma_ea, ma_m) in
              let ma_3 = close_escrow_account_ne p w2 w' a.escrow_account a.maker ma ma_x ma_m h2 in
              let (_, _, unlocked, emptied) =
                close_escrow_account_lem p w2 w' a.escrow_account a.maker closes
                  (λ q. apart (sym q)) h2 in
              record {
                vault_pays = enough;
                maker_gets = balance-same p w1 w' ma (ma_3 ∙ ma_2) ∙ to_a;
                emptied = emptied;
                unlocked = unlocked;
              }
        ]
      ]

  -- A successful `refund` was signed by the maker of the escrow. The maker gets exactly the
  -- offered amount back, out of the vault, and the escrow's account ends empty, provided that
  -- the maker's wallet is neither the escrow nor a token account. Laws: WritesOnly,
  -- TokensHaveLen, TokensOwned, TransferMoves, ClosesEmpty.
  pub refund-IsGivenBack :
      (a : RefundAccounts) (w w' : World)
      → WritesOnly p
      → TokensHaveLen p
      → TokensOwned p
      → TransferMoves p
      → ClosesEmpty p
      → a.maker.address ≢ a.escrow_account.address
      → (w a.maker.address).owner ≢ p.token_program_id
      → refund p a w ≡ ok w'
      → (e : Escrow) × IsRefundable a w e × IsGivenBack a e w w'
  refund-IsGivenBack a w w' writes lens tokens moves closes apart wallet h =
      let (e, r, paid) = refund-IsRefundable a w w' h in
      (e, r, give_back-IsGivenBack a e w w' writes lens tokens moves closes apart wallet r paid)
