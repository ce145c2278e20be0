-- ===== src/AnchorEscrow/Take/Effects.antt =====
-- What taking an offer does (instructions/take.rs of the Anchor escrow).
use q2_26_accel_v1c70ryg0d.Prelude.{ℕ, ◌+◌, ◌-◌, ◌≤◌, ◌≡◌, ◌≢◌, sym, ap, ◌∙◌, true, ok, arith}
use q2_26_accel_v1c70ryg0d.AnchorEscrow.{
  Escrow, Mint, TokenAccount, system_account, escrow_account, token_account, Chain, Platform,
}
use q2_26_accel_v1c70ryg0d.AnchorEscrow.Laws.{Performs}
use q2_26_accel_v1c70ryg0d.AnchorEscrow.Tokens.{amount_of}
use q2_26_accel_v1c70ryg0d.AnchorEscrow.Loads.{escrow_not_system}
use q2_26_accel_v1c70ryg0d.AnchorEscrow.Take.{TakeAccounts, check_take, swap, take}
use q2_26_accel_v1c70ryg0d.AnchorEscrow.Take.Open.{IsReady, ready-keeps_token, ready-keeps_escrow}
use q2_26_accel_v1c70ryg0d.AnchorEscrow.Take.Run.{take-IsRun}
use q2_26_accel_v1c70ryg0d.AnchorEscrow.Take.Exchange.{swap-IsExchanged, apart_owners}

-- An account of a wallet for a mint has received an amount, and was opened for it if need be.
pub record IsPaid (key mint wallet amount : ℕ) (w w' : Chain) : Type 0 where
  pub account : TokenAccount
  pub stands : w'.accounts key ≡ token_account account
  pub mint_is : account.mint ≡ mint
  pub owner_is : account.owner ≡ wallet
  pub amount_is : account.amount ≡ amount_of (w.accounts key) + amount

pub record IsTaken (p : Platform) (a : TakeAccounts) (w w' : Chain) : Type 0 where
  pub offer : Escrow
  pub stored : w.accounts a.escrow ≡ escrow_account offer
  pub signed : a.taker_signed ≡ true
  pub terms : (offer.maker ≡ a.maker) × (offer.mint_a ≡ a.mint_a) × (offer.mint_b ≡ a.mint_b)
  pub derived : a.escrow ≡ p.escrow_address offer.maker offer.seed offer.bump
  pub ata_b : TokenAccount
  pub vault : TokenAccount
  pub had : w.accounts a.taker_ata_b ≡ token_account ata_b
  pub held : w.accounts a.vault ≡ token_account vault
  pub owned : (ata_b.owner ≡ a.taker) × (vault.owner ≡ a.escrow)
  pub paid :
      (offer.receive ≤ ata_b.amount)
      × (w'.accounts a.taker_ata_b
          ≡ token_account (record ata_b { amount = ata_b.amount - offer.receive }))
  pub received : IsPaid a.maker_ata_b a.mint_b a.maker offer.receive w w'
  pub given : IsPaid a.taker_ata_a a.mint_a a.taker vault.amount w w'
  pub closed : (w'.accounts a.vault ≡ system_account) × (w'.accounts a.escrow ≡ system_account)
  pub elsewhere :
      (k : ℕ)
      → k ≢ a.taker_ata_b
      → k ≢ a.maker_ata_b
      → k ≢ a.taker_ata_a
      → k ≢ a.vault
      → k ≢ a.escrow
      → w'.accounts k ≡ w.accounts k

-- The checks and the handler, on what was loaded and opened.
settle :
    (p : Platform) (a : TakeAccounts) (m n : Mint) (e : Escrow) (v ata_b : TokenAccount)
    (w w1 w2 w' : Chain)
    → Performs p
    → a.taker ≢ a.maker
    → a.mint_a ≢ a.mint_b
    → a.escrow ≢ a.taker
    → a.taker_signed ≡ true
    → w.accounts a.maker ≡ system_account
    → w.accounts a.escrow ≡ escrow_account e
    → w.accounts a.vault ≡ token_account v
    → w.accounts a.taker_ata_b ≡ token_account ata_b
    → IsReady a.taker_ata_a a.mint_a a.taker w w1
    → IsReady a.maker_ata_b a.mint_b a.maker w1 w2
    → check_take p a ata_b e v ≡ ok tt
    → swap p a m n e v w2 ≡ ok w'
    → IsTaken p a w w'
unfolding check_take
settle p a m n e v ata_b w w1 w2 w' performs parties mints not_taker signed wallet stored held had
      ra rb checked h =
    let owners : (ata_b.owner ≡ a.taker) × (v.owner ≡ a.escrow) = ground arith in
    let terms : (e.maker ≡ a.maker) × (e.mint_a ≡ a.mint_a) × (e.mint_b ≡ a.mint_b) =
      ground arith in
    let derived : a.escrow ≡ p.escrow_address a.maker e.seed e.bump = ground arith in
    let not_maker : a.escrow ≢ a.maker =
      λ q. escrow_not_system (sym stored ∙ ap w.accounts q ∙ wallet) in
    let keeps_token = λ (k : ℕ) (t : TokenAccount) (x : w.accounts k ≡ token_account t).
      ready-keeps_token rb k t (ready-keeps_token ra k t x) in
    let at_ta = ready-keeps_token rb a.taker_ata_a ra.account ra.stands in
    let x =
      swap-IsExchanged p a m n e v ata_b ra.account rb.account w2 performs parties mints not_taker
        not_maker (ready-keeps_escrow rb _ e (ready-keeps_escrow ra _ e stored))
        (keeps_token a.vault v held) owners.1 (keeps_token a.taker_ata_b ata_b had) owners.0 at_ta
        ra.owner_is ra.mint_is rb.stands rb.owner_is w' h in
    let tb_ta : a.maker_ata_b ≢ a.taker_ata_a =
      apart_owners w2 rb.stands at_ta rb.owner_is ra.owner_is (λ q. parties (sym q)) in
    record {
      offer = e;
      stored = stored;
      signed = signed;
      terms = terms;
      derived = derived ∙ ap (λ k. p.escrow_address k e.seed e.bump) (sym terms.0);
      ata_b = ata_b;
      vault = v;
      had = had;
      held = held;
      owned = owners;
      paid = (x.enough, x.paid);
      received = record {
        account = record rb.account { amount = rb.account.amount + e.receive };
        stands = x.received;
        mint_is = rb.mint_is;
        owner_is = rb.owner_is;
        amount_is = ap (λ i. i + e.receive) (rb.amount_is ∙ ap amount_of (ra.elsewhere _ tb_ta));
      };
      given = record {
        account = record ra.account { amount = ra.account.amount + v.amount };
        stands = x.given;
        mint_is = ra.mint_is;
        owner_is = ra.owner_is;
        amount_is = ap (λ i. i + v.amount) ra.amount_is;
      };
      closed = x.closed;
      elsewhere = λ k b tb ta vault escrow.
          x.elsewhere k b tb ta vault escrow ∙ rb.elsewhere k tb ∙ ra.elsewhere k ta;
    }

-- A successful `take` was signed by the taker, on an escrow of the program at its derived address
-- whose maker and mints are the ones passed. The taker pays exactly what the maker asked for, the
-- maker gets it, the taker gets all that the vault held, the vault and the escrow are closed, and no
-- other account changes, provided that taker, maker and escrow differ and the two mints do. Laws:
-- Performs.
pub take-IsTaken :
    (p : Platform) (a : TakeAccounts) (w w' : Chain)
    → Performs p
    → a.taker ≢ a.maker
    → a.mint_a ≢ a.mint_b
    → a.escrow ≢ a.taker
    → take p a w ≡ ok w'
    → IsTaken p a w w'
take-IsTaken p a w w' performs parties mints not_taker h =
    let r = take-IsRun p a w w' performs h in
    settle p a r.m r.n r.e r.v r.ata_b w r.w1 r.w2 w' performs parties mints not_taker r.signed
      r.wallet r.stored r.held r.had r.ready_a r.ready_b r.checked r.swapped
