-- ===== src/AnchorEscrow/Refund/Effects.antt =====
-- What a refund of the Anchor escrow does (instructions/refund.rs).
use q2_26_accel_v1c70ryg0d.Prelude.{
  ℕ, ◌+◌, ◌≡◌, ◌≢◌, sym, ap, ◌∙◌, true, ok, through, via, ◌>>=◌, arith,
}
use q2_26_accel_v1c70ryg0d.AnchorEscrow.{
  Escrow, Mint, close_escrow, empty_and_close_vault, system_account, escrow_account, token_account,
  TokenAccount, Chain, Platform,
}
use q2_26_accel_v1c70ryg0d.AnchorEscrow.Laws.{Performs}
use q2_26_accel_v1c70ryg0d.AnchorEscrow.Tokens.{close_escrow_lem}
use q2_26_accel_v1c70ryg0d.AnchorEscrow.Loads.{
  token_inj, token_not_escrow, drained_to, empty_and_close_vault_lem,
}
use q2_26_accel_v1c70ryg0d.AnchorEscrow.Refund.Run.{refund-IsRun}
use q2_26_accel_v1c70ryg0d.AnchorEscrow.Refund.{RefundAccounts, check_refund, refund}

pub record IsRefunded (p : Platform) (a : RefundAccounts) (w w' : Chain) : Type 0 where
  pub offer : Escrow
  pub stored : w.accounts a.escrow ≡ escrow_account offer
  pub of_maker : (a.maker_signed ≡ true) × (offer.maker ≡ a.maker)
  pub of_mint : offer.mint_a ≡ a.mint_a
  pub derived : a.escrow ≡ p.escrow_address offer.maker offer.seed offer.bump
  pub ata : TokenAccount
  pub vault : TokenAccount
  pub had : w.accounts a.maker_ata_a ≡ token_account ata
  pub held : w.accounts a.vault ≡ token_account vault
  pub owned : (ata.owner ≡ a.maker) × (vault.owner ≡ a.escrow)
  pub returned :
      w'.accounts a.maker_ata_a ≡ token_account (record ata { amount = ata.amount + vault.amount })
  pub closed : (w'.accounts a.vault ≡ system_account) × (w'.accounts a.escrow ≡ system_account)
  pub elsewhere :
      (k : ℕ) → k ≢ a.maker_ata_a → k ≢ a.vault → k ≢ a.escrow → w'.accounts k ≡ w.accounts k

-- The checks and the handler, on what was loaded.
pay_out :
    (p : Platform) (a : RefundAccounts) (m : Mint) (ata : TokenAccount) (e : Escrow)
    (v : TokenAccount) (w w' : Chain)
    → Performs p
    → a.escrow ≢ a.maker
    → a.maker_signed ≡ true
    → w.accounts a.maker_ata_a ≡ token_account ata
    → w.accounts a.escrow ≡ escrow_account e
    → w.accounts a.vault ≡ token_account v
    → check_refund p a ata e v ≡ ok tt
    → (empty_and_close_vault p a.token_program a.escrow a.vault e a.maker_ata_a a.maker a.mint_a
          m.decimals v.amount w
        >>= λ w1. p.invoke (close_escrow a.escrow a.maker) w1)
      ≡ ok w'
    → IsRefunded p a w w'
unfolding check_refund
pay_out p a m ata e v w w' performs apart signed had stored held checked h =
    let owners : (ata.owner ≡ a.maker) × (v.owner ≡ a.escrow) = ground arith in
    let apart_vault : a.vault ≢ a.maker_ata_a = λ q.
      let same : v ≡ ata = token_inj (sym held ∙ ap w.accounts q ∙ had) in
      apart (sym owners.1 ∙ ap (λ t. t.owner) same ∙ owners.0) in
    elim (through
      (empty_and_close_vault p a.token_program a.escrow a.vault e a.maker_ata_a a.maker a.mint_a
        m.decimals v.amount w)
      _ h) [
        | via w1 drained closed ↦
            let d =
              empty_and_close_vault_lem p a.token_program a.escrow a.vault e a.maker_ata_a a.maker
                a.mint_a m.decimals v.amount w w1 performs apart_vault drained in
            let (gone, kept) = close_escrow_lem p a.escrow a.maker w1 w' performs closed in
            record {
              offer = e;
              stored = stored;
              of_maker = (signed, ground arith);
              of_mint = ground arith;
              derived = ground arith;
              ata = ata;
              vault = v;
              had = had;
              held = held;
              owned = owners;
              returned =
                  kept a.maker_ata_a (λ q. token_not_escrow (sym had ∙ ap w.accounts q ∙ stored))
                  ∙ drained_to d had;
              closed = (
                kept a.vault (λ q. token_not_escrow (sym held ∙ ap w.accounts q ∙ stored))
                    ∙ d.vault_gone,
                gone,
              );
              elsewhere = λ k x y z. kept k z ∙ d.elsewhere k y x;
            }
      ]

-- A successful refund was signed by the maker of the offer, whose address is the derived one. The
-- maker's token account grows by all that the vault holds, the vault and the escrow are closed, and
-- no other account changes, provided the escrow is not the maker's wallet. Laws: Performs.
pub refund-IsRefunded :
    (p : Platform) (a : RefundAccounts) (w w' : Chain)
    → Performs p
    → a.escrow ≢ a.maker
    → refund p a w ≡ ok w'
    → IsRefunded p a w w'
refund-IsRefunded p a w w' performs apart h =
    let r = refund-IsRun p a w w' h in
    pay_out p a r.m r.ata r.e r.v w w' performs apart r.signed r.had r.stored r.held r.checked
      r.paid_out
