-- ===== src/AnchorEscrow/Take/Exchange.antt =====
-- The transfers of `take` (instructions/take.rs of the Anchor escrow).
use q2_26_accel_v1c70ryg0d.Prelude.{
  ℕ, ◌+◌, ◌-◌, ◌≤◌, ◌≡◌, ◌≢◌, sym, ap, ◌∙◌, ok, through, via, arith,
}
use q2_26_accel_v1c70ryg0d.AnchorEscrow.{
  Escrow, Mint, TokenAccount, system_account, escrow_account, token_account, Chain, Platform,
  empty_and_close_vault,
}
use q2_26_accel_v1c70ryg0d.AnchorEscrow.Laws.{Performs}
use q2_26_accel_v1c70ryg0d.AnchorEscrow.Tokens.{amount_of, transfer_lem, close_escrow_lem}
use q2_26_accel_v1c70ryg0d.AnchorEscrow.Loads.{
  token_inj, token_not_escrow, drained_to, empty_and_close_vault_lem,
}
use q2_26_accel_v1c70ryg0d.AnchorEscrow.Take.{TakeAccounts, deposit_to_maker, swap}

-- Two token accounts of different owners, or of different mints, stand at different addresses.
pub apart_owners :
    (w : Chain) {j k : ℕ} {t u : TokenAccount} {a b : ℕ}
    → w.accounts j ≡ token_account t
    → w.accounts k ≡ token_account u
    → t.owner ≡ a
    → u.owner ≡ b
    → a ≢ b
    → j ≢ k
apart_owners w {t} {u} at_j at_k p q n e =
    let same : t ≡ u = token_inj (sym at_j ∙ ap w.accounts e ∙ at_k) in
    n (sym p ∙ ap (λ x. x.owner) same ∙ q)

apart_mints :
    (w : Chain) {j k : ℕ} {t u : TokenAccount} {a b : ℕ}
    → w.accounts j ≡ token_account t
    → w.accounts k ≡ token_account u
    → t.mint ≡ a
    → u.mint ≡ b
    → a ≢ b
    → j ≢ k
apart_mints w {t} {u} at_j at_k p q n e =
    let same : t ≡ u = token_inj (sym at_j ∙ ap w.accounts e ∙ at_k) in
    n (sym p ∙ ap (λ x. x.mint) same ∙ q)

apart_kinds :
    (w : Chain) {j k : ℕ} {t : TokenAccount} {e : Escrow}
    → w.accounts j ≡ token_account t
    → w.accounts k ≡ escrow_account e
    → j ≢ k
apart_kinds w at_j at_k q = token_not_escrow (sym at_j ∙ ap w.accounts q ∙ at_k)

-- The handler, between four token accounts of the right owners and mints.
pub record IsExchanged (a : TakeAccounts) (receive amount : ℕ) (ata_b ta tb : TokenAccount)
    (w w' : Chain) : Type 0 where
  pub enough : receive ≤ ata_b.amount
  pub held : amount_of (w.accounts a.vault) ≡ amount
  pub paid :
      w'.accounts a.taker_ata_b ≡ token_account (record ata_b { amount = ata_b.amount - receive })
  pub received :
      w'.accounts a.maker_ata_b ≡ token_account (record tb { amount = tb.amount + receive })
  pub given : w'.accounts a.taker_ata_a ≡ token_account (record ta { amount = ta.amount + amount })
  pub closed : (w'.accounts a.vault ≡ system_account) × (w'.accounts a.escrow ≡ system_account)
  pub elsewhere :
      (k : ℕ)
      → k ≢ a.taker_ata_b
      → k ≢ a.maker_ata_b
      → k ≢ a.taker_ata_a
      → k ≢ a.vault
      → k ≢ a.escrow
      → w'.accounts k ≡ w.accounts k

module _ (p : Platform) (a : TakeAccounts) (m n : Mint) (e : Escrow) (v ata_b ta tb : TokenAccount)
    (w : Chain) (performs : Performs p) (parties : a.taker ≢ a.maker) (mints : a.mint_a ≢ a.mint_b)
    (not_taker : a.escrow ≢ a.taker) (not_maker : a.escrow ≢ a.maker)
    (at_escrow : w.accounts a.escrow ≡ escrow_account e)
    (at_vault : w.accounts a.vault ≡ token_account v) (vault_owner : v.owner ≡ a.escrow)
    (at_ata_b : w.accounts a.taker_ata_b ≡ token_account ata_b)
    (ata_b_owner : ata_b.owner ≡ a.taker) (at_ta : w.accounts a.taker_ata_a ≡ token_account ta)
    (ta_owner : ta.owner ≡ a.taker) (ta_mint : ta.mint ≡ a.mint_a)
    (at_tb : w.accounts a.maker_ata_b ≡ token_account tb) (tb_owner : tb.owner ≡ a.maker) where
  pub swap-IsExchanged :
      (w' : Chain) → swap p a m n e v w ≡ ok w' → IsExchanged a e.receive v.amount ata_b ta tb w w'
  unfolding swap deposit_to_maker
  swap-IsExchanged w' h =
      let b_tb = apart_owners w at_ata_b at_tb ata_b_owner tb_owner parties in
      let v_ta = apart_owners w at_vault at_ta vault_owner ta_owner not_taker in
      let v_b = apart_owners w at_vault at_ata_b vault_owner ata_b_owner not_taker in
      let v_tb = apart_owners w at_vault at_tb vault_owner tb_owner not_maker in
      let ta_tb = apart_owners w at_ta at_tb ta_owner tb_owner parties in
      elim (through (p.invoke _ w) _ h) [
        | via w1 moved h1 ↦
            let (_, t) =
              transfer_lem p a.token_program a.taker_ata_b a.mint_b a.maker_ata_b a.taker a.taker
                e.receive n.decimals w w1 performs b_tb moved in
            let source = token_inj (sym t.from_source ∙ at_ata_b) in
            let target = token_inj (sym t.to_target ∙ at_tb) in
            let b_mint : ata_b.mint ≡ a.mint_b = sym (ap (λ x. x.mint) source) ∙ t.mints.0 in
            let ta_b = apart_mints w at_ta at_ata_b ta_mint b_mint mints in
            elim (through
              (empty_and_close_vault p a.token_program a.escrow a.vault e a.taker_ata_a a.maker
                a.mint_a m.decimals v.amount w1)
              _ h1) [
                | via w2 drained closed ↦
                    let d =
                      empty_and_close_vault_lem p a.token_program a.escrow a.vault e a.taker_ata_a
                        a.maker a.mint_a m.decimals v.amount w1 w2 performs v_ta drained in
                    let (gone, kept) = close_escrow_lem p a.escrow a.maker w2 w' performs closed in
                    let ta_stays = t.elsewhere _ ta_b ta_tb ∙ at_ta in
                    record {
                      enough = ground (arith, t.enough, source);
                      held = ap amount_of (sym (t.elsewhere _ v_b v_tb)) ∙ d.held;
                      paid =
                          kept _ (apart_kinds w at_ata_b at_escrow)
                          ∙ d.elsewhere _ (λ q. v_b (sym q)) (λ q. ta_b (sym q))
                          ∙ t.debited
                          ∙ ap (λ u. token_account (record u { amount = u.amount - e.receive }))
                              source;
                      received =
                          kept _ (apart_kinds w at_tb at_escrow)
                          ∙ d.elsewhere _ (λ q. v_tb (sym q)) (λ q. ta_tb (sym q))
                          ∙ t.credited
                          ∙ ap (λ u. token_account (record u { amount = u.amount + e.receive }))
                              target;
                      given = kept _ (apart_kinds w at_ta at_escrow) ∙ drained_to d ta_stays;
                      closed = (kept _ (apart_kinds w at_vault at_escrow) ∙ d.vault_gone, gone);
                      elsewhere = λ k x y z u s. kept k s ∙ d.elsewhere k u z ∙ t.elsewhere k x y;
                    }
              ]
      ]
