-- ===== src/Escrow/Take/Swap.antt =====
-- `take` (instructions/take.rs) is a swap: both amounts of the offer change hands, or nothing happens.
use q2_26_accel_v1c70ryg0d.Prelude.{
  ◌+◌, ◌-◌, ◌≤◌, ◌≡◌, ◌≢◌, ◌∙◌, sym, ok, length, arith, through, via,
}
use q2_26_accel_v1c70ryg0d.Solana.{World, Address, Platform}
use q2_26_accel_v1c70ryg0d.Solana.Laws.{
  WritesOnly, TokensHaveLen, TokensOwned, TransferMoves, ClosesEmpty, balance, balance-same,
  apart_by_len,
}
use q2_26_accel_v1c70ryg0d.Escrow.State.{Escrow, amount_to_receive, amount_to_give}
use q2_26_accel_v1c70ryg0d.Escrow.State.Layout.{load_escrow-len}
use q2_26_accel_v1c70ryg0d.Escrow.Utils.Close.{close_escrow_account_lem, close_escrow_account_ne}
use q2_26_accel_v1c70ryg0d.Escrow.Utils.Tokens.{
  Holds-len, apart_by_owner, apart_by_mint, apart_by_program,
}
use q2_26_accel_v1c70ryg0d.Escrow.Take.{TakeAccounts, take_offer, exchange}
use q2_26_accel_v1c70ryg0d.Escrow.Take.Checks.{IsTakeable, take_offer-IsTakeable}

-- The keys that have to differ: the three owners, the two mints, and that the maker's wallet is a
-- wallet.
pub record AreDistinct (p : Platform) (a : TakeAccounts) (w : World) : Type 0 where
  pub taker_maker : a.taker.address ≢ a.maker.address
  pub taker_escrow : a.taker.address ≢ a.escrow_account.address
  pub maker_escrow : a.maker.address ≢ a.escrow_account.address
  pub mints : a.mint_a.address ≢ a.mint_b.address
  pub wallet : (w a.maker.address).owner ≢ p.token_program_id

-- Both legs of the swap, and the end of the escrow.
pub record IsSwap (p : Platform) (a : TakeAccounts) (e : Escrow) (w w' : World) : Type 0 where
  pub taker_pays : amount_to_receive e ≤ balance p w a.taker_ata_b.address
  pub taker_paid :
      balance p w' a.taker_ata_b.address ≡ balance p w a.taker_ata_b.address - amount_to_receive e
  pub maker_gets :
      balance p w' a.maker_ata_b.address ≡ balance p w a.maker_ata_b.address + amount_to_receive e
  pub vault_pays : amount_to_give e ≤ balance p w a.escrow_ata.address
  pub taker_gets :
      balance p w' a.taker_ata_a.address ≡ balance p w a.taker_ata_a.address + amount_to_give e
  pub emptied : length (w' a.escrow_account.address).bytes ≡ 0
  pub unlocked : (w' a.escrow_account.address).lamports ≡ 0

module _ (p : Platform) where
  -- A token account that neither the second transfer nor the two closings touch.
  rest-balance :
      (a : TakeAccounts) (w1 w2 w3 w' : World) (k : Address)
      → (w2 k ≡ w1 k)
      → (w3 k ≡ w2 k)
      → (w' k ≡ w3 k)
      → balance p w' k ≡ balance p w1 k
  rest-balance a w1 w2 w3 w' k e1 e2 e3 = balance-same p w1 w' k (e3 ∙ e2 ∙ e1)

  exchange-IsSwap :
      (a : TakeAccounts) (e : Escrow) (w w' : World)
      → WritesOnly p
      → TokensHaveLen p
      → TokensOwned p
      → TransferMoves p
      → ClosesEmpty p
      → AreDistinct p a w
      → IsTakeable p a w e
      → exchange p a e w ≡ ok w'
      → IsSwap p a e w w'
  unfolding exchange
  exchange-IsSwap a e w w' writes lens tokens moves closes d r h =
      elim (through (p.invoke_signed _ _ w) _ h) [
        | via w1 t1 h1 ↦ elim (through (p.invoke_signed _ _ w1) _ h1) [
          | via w2 t2 h2 ↦ elim (through (p.invoke_signed _ _ w2) _ h2) [
            | via w3 t3 h3 ↦
                let ta = a.taker_ata_a.address in
                let tb = a.taker_ata_b.address in
                let mb = a.maker_ata_b.address in
                let ea = a.escrow_ata.address in
                let tb_mb = apart_by_owner p r.taker_b r.maker_b d.taker_maker in
                let ta_tb = apart_by_mint p r.taker_a r.taker_b d.mints in
                let ta_mb = apart_by_mint p r.taker_a r.maker_b d.mints in
                let ea_tb = apart_by_mint p r.vault r.taker_b d.mints in
                let ea_mb = apart_by_mint p r.vault r.maker_b d.mints in
                let ta_ea = apart_by_owner p r.taker_a r.vault d.taker_escrow in
                let size = load_escrow-len w a.escrow_account e r.loaded in
                let off = λ (k : Address) (l : length (w k).bytes ≡ 165).
                  apart_by_len w k a.escrow_account.address l size (omega arith) in
                let ta_x = off ta (Holds-len p lens r.taker_a) in
                let tb_x = off tb (Holds-len p lens r.taker_b) in
                let mb_x = off mb (Holds-len p lens r.maker_b) in
                let ta_m = apart_by_program p a.maker.address tokens r.taker_a d.wallet in
                let tb_m = apart_by_program p a.maker.address tokens r.taker_b d.wallet in
                let mb_m = apart_by_program p a.maker.address tokens r.maker_b d.wallet in
                let (enough_b, from_b, to_b) = moves _ tb mb _ _ w w1 t1 tb_mb in
                let (enough_a, from_a, to_a) = moves _ ea ta _ _ w1 w2 t2 (λ q. ta_ea (sym q)) in
                let ea_1 = writes _ _ w w1 ea t1 (ea_tb, ea_mb) in
                let ta_1 = writes _ _ w w1 ta t1 (ta_tb, ta_mb) in
                let tb_2 = writes _ _ w1 w2 tb t2 ((λ q. ea_tb (sym q)), (λ q. ta_tb (sym q))) in
                let mb_2 = writes _ _ w1 w2 mb t2 ((λ q. ea_mb (sym q)), (λ q. ta_mb (sym q))) in
                let ta_3 = writes _ _ w2 w3 ta t3 (ta_ea, ta_m) in
                let tb_3 = writes _ _ w2 w3 tb t3 ((λ q. ea_tb (sym q)), tb_m) in
                let mb_3 = writes _ _ w2 w3 mb t3 ((λ q. ea_mb (sym q)), mb_m) in
                let ta_4 =
                  close_escrow_account_ne p w3 w' a.escrow_account a.maker ta ta_x ta_m h3 in
                let tb_4 =
                  close_escrow_account_ne p w3 w' a.escrow_account a.maker tb tb_x tb_m h3 in
                let mb_4 =
                  close_escrow_account_ne p w3 w' a.escrow_account a.maker mb mb_x mb_m h3 in
                let (_, _, unlocked, emptied) =
                  close_escrow_account_lem p w3 w' a.escrow_account a.maker closes
                    (λ q. d.maker_escrow (sym q)) h3 in
                record {
                  taker_pays = enough_b;
                  taker_paid = rest-balance a w1 w2 w3 w' tb tb_2 tb_3 tb_4 ∙ from_b;
                  maker_gets = rest-balance a w1 w2 w3 w' mb mb_2 mb_3 mb_4 ∙ to_b;
                  vault_pays = omega (arith, enough_a, balance-same p w w1 ea ea_1);
                  taker_gets = omega (
                    arith,
                    to_a,
                    balance-same p w w1 ta ta_1,
                    balance-same p w2 w' ta (ta_4 ∙ ta_3),
                  );
                  emptied = emptied;
                  unlocked = unlocked;
                }
          ]
        ]
      ]

  -- A successful `take` was signed by the taker, on an escrow of the program whose maker and
  -- mints are the ones passed. The taker pays exactly what the maker asked for, the maker gets
  -- it, the taker gets exactly what was offered, out of the vault, and the escrow's account
  -- ends empty, provided the parties and the mints differ. Laws: WritesOnly, TokensHaveLen,
  -- TokensOwned, TransferMoves, ClosesEmpty.
  pub take_offer-IsSwap :
      (a : TakeAccounts) (w w' : World)
      → WritesOnly p
      → TokensHaveLen p
      → TokensOwned p
      → TransferMoves p
      → ClosesEmpty p
      → AreDistinct p a w
      → take_offer p a w ≡ ok w'
      → (e : Escrow) × IsTakeable p a w e × IsSwap p a e w w'
  take_offer-IsSwap a w w' writes lens tokens moves closes d h =
      let (e, r, paid) = take_offer-IsTakeable p a w w' h in
      (e, r, exchange-IsSwap a e w w' writes lens tokens moves closes d r paid)
