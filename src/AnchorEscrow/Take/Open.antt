-- ===== src/AnchorEscrow/Take/Open.antt =====
-- `init_if_needed` of the Anchor escrow's `take`: the token account that stands there afterwards.
use q2_26_accel_v1c70ryg0d.Prelude.{
  ℕ, ◌≡◌, ◌≢◌, ◌⊎◌, inl, inr, sym, ap, ◌∙◌, Bool, true, false, Bool-cases, ◌==◌, ok, ok-inj,
  through, via, if◌then◌else◌, arith,
}
use q2_26_accel_v1c70ryg0d.AnchorEscrow.{
  system_account, escrow_account, token_account, Escrow, TokenAccount, Chain, Platform,
  create_token_account, token_of, is_system,
}
use q2_26_accel_v1c70ryg0d.AnchorEscrow.Laws.{Performs}
use q2_26_accel_v1c70ryg0d.AnchorEscrow.Tokens.{amount_of, create_token_account_lem}
use q2_26_accel_v1c70ryg0d.AnchorEscrow.Loads.{
  token_of_lem, token_inj, token_not_system, escrow_not_system,
}
use q2_26_accel_v1c70ryg0d.AnchorEscrow.Take.{check_opened, open_if_needed}

pub record IsReady (key mint wallet : ℕ) (w w' : Chain) : Type 0 where
  pub account : TokenAccount
  pub stands : w'.accounts key ≡ token_account account
  pub mint_is : account.mint ≡ mint
  pub owner_is : account.owner ≡ wallet
  pub amount_is : account.amount ≡ amount_of (w.accounts key)
  pub was : (w.accounts key ≡ system_account) ⊎ (w.accounts key ≡ token_account account)
  pub elsewhere : (k : ℕ) → k ≢ key → w'.accounts k ≡ w.accounts k

-- The creation, if there is one, and what it leaves.
create_if :
    (p : Platform) (payer key mint wallet program : ℕ) (b : Bool) (w w1 : Chain)
    → Performs p
    → (if b then p.invoke (create_token_account payer key mint wallet program) w else ok w) ≡ ok w1
    → ((w.accounts key ≡ system_account)
        × (w1.accounts key
            ≡ token_account
                (record { mint = mint; owner = wallet; amount = 0; token_program = program }))
        × ((k : ℕ) → k ≢ key → w1.accounts k ≡ w.accounts k))
      ⊎ (w ≡ w1)
create_if p payer key mint wallet program true w w1 performs h =
    let (free, _, (made, kept)) =
      create_token_account_lem p payer key mint wallet program w w1 performs h in
    inl (free, made, kept)
create_if p payer key mint wallet program false w w1 performs h = inr (ok-inj h)

pub open_if_needed-IsReady :
    (p : Platform) (payer key mint wallet program : ℕ) (w w' : Chain)
    → Performs p
    → open_if_needed p payer key mint wallet program w ≡ ok w'
    → IsReady key mint wallet w w'
unfolding open_if_needed check_opened
open_if_needed-IsReady p payer key mint wallet program w w' performs h =
    elim (through
      (if is_system (w.accounts key)
        then p.invoke (create_token_account payer key mint wallet program) w
        else ok w)
      _ h) [
        | via w1 opened h1 ↦ elim (through (token_of (w1.accounts key)) _ h1) [
          | via t loaded h2 ↦ elim (through (check_opened p key mint wallet program t) _ h2) [
            | via _ checked h3 ↦
                let stands = token_of_lem _ t loaded in
                let same = ok-inj h3 in
                let fits : (t.mint ≡ mint) × (t.owner ≡ wallet) = ground arith in
                let there = ap (λ c. c.accounts key) (sym same) ∙ stands in
                elim (create_if p payer key mint wallet program _ w w1 performs opened) [
                  | inl (free, made, kept) ↦
                      let new = token_inj (sym stands ∙ made) in
                      record {
                        account = t;
                        stands = there;
                        mint_is = fits.0;
                        owner_is = fits.1;
                        amount_is = ap (λ u. u.amount) new ∙ ap amount_of (sym free);
                        was = inl free;
                        elsewhere = λ k x. ap (λ c. c.accounts k) (sym same) ∙ kept k x;
                      }
                  | inr unchanged ↦
                      let before = ap (λ c. c.accounts key) unchanged ∙ stands in
                      record {
                        account = t;
                        stands = there;
                        mint_is = fits.0;
                        owner_is = fits.1;
                        amount_is = ap amount_of (sym before);
                        was = inr before;
                        elsewhere = λ k x. ap (λ c. c.accounts k) (sym same ∙ sym unchanged);
                      }
                ]
          ]
        ]
      ]

-- What was there before and belongs to a program is kept.
module _ {key mint wallet : ℕ} {w w' : Chain} (r : IsReady key mint wallet w w') where
  pub ready-keeps : (k : ℕ) → w.accounts k ≢ system_account → w'.accounts k ≡ w.accounts k
  ready-keeps k taken = elim (Bool-cases (k == key)) [
    | inl here ↦
        let e : k ≡ key = ground arith in
        elim r.was [
          | inl free ↦ absurd (taken (ap w.accounts e ∙ free))
          | inr before ↦ ap w'.accounts e ∙ r.stands ∙ sym before ∙ ap w.accounts (sym e)
        ]
    | inr away ↦ r.elsewhere k (ground arith)
  ]

  pub ready-keeps_token :
      (k : ℕ) (t : TokenAccount) → w.accounts k ≡ token_account t → w'.accounts k ≡ token_account t
  ready-keeps_token k t h = ready-keeps k (λ q. token_not_system (sym h ∙ q)) ∙ h

  pub ready-keeps_escrow :
      (k : ℕ) (e : Escrow) → w.accounts k ≡ escrow_account e → w'.accounts k ≡ escrow_account e
  ready-keeps_escrow k e h = ready-keeps k (λ q. escrow_not_system (sym h ∙ q)) ∙ h
