-- ===== src/AnchorEscrow/Loads.antt =====
-- Loading an account of the Anchor escrow, and emptying its vault.
use q2_26_accel_v1c70ryg0d.Prelude.{ℕ, ◌+◌, ◌≡◌, ◌≢◌, sym, ap, ◌∙◌, ok, through, via, arith}
use q2_26_accel_v1c70ryg0d.AnchorEscrow.{
  Account, system_account, unopened, escrow_account, token_account, mint_account, other_account,
  Escrow, TokenAccount, Chain, Platform, escrow_of, token_of, empty_and_close_vault,
}
use q2_26_accel_v1c70ryg0d.AnchorEscrow.Laws.{Performs}
use q2_26_accel_v1c70ryg0d.AnchorEscrow.Tokens.{amount_of, transfer_lem, close_account_lem}

pub escrow_of_lem : (x : Account) (e : Escrow) → escrow_of x ≡ ok e → x ≡ escrow_account e
escrow_of_lem (escrow_account e') e h = cc
escrow_of_lem (token_account t) e h = cc
escrow_of_lem (mint_account m) e h = cc
escrow_of_lem (other_account n) e h = cc
escrow_of_lem system_account e h = cc
escrow_of_lem unopened e h = cc

pub token_of_lem : (x : Account) (t : TokenAccount) → token_of x ≡ ok t → x ≡ token_account t
token_of_lem (token_account t') t h = cc
token_of_lem (escrow_account e) t h = cc
token_of_lem (mint_account m) t h = cc
token_of_lem (other_account n) t h = cc
token_of_lem system_account t h = cc
token_of_lem unopened t h = cc

pub token_inj : {t u : TokenAccount} → token_account t ≡ token_account u → t ≡ u
token_inj h = cc

pub escrow_inj : {e f : Escrow} → escrow_account e ≡ escrow_account f → e ≡ f
escrow_inj h = cc

pub token_not_escrow : {t : TokenAccount} {e : Escrow} → ¬ (token_account t ≡ escrow_account e)
token_not_escrow h = cc

pub token_not_system : {t : TokenAccount} → ¬ (token_account t ≡ system_account)
token_not_system h = cc

pub escrow_not_system : {e : Escrow} → ¬ (escrow_account e ≡ system_account)
escrow_not_system h = cc

pub unopened_not_system : ¬ (unopened ≡ system_account)
unopened_not_system h = cc

-- All of a vault's tokens are paid out, and the vault is gone.
pub record IsDrained (vault to mint amount : ℕ) (w w' : Chain) : Type 0 where
  pub target : TokenAccount
  pub held : amount_of (w.accounts vault) ≡ amount
  pub to_target : w.accounts to ≡ token_account target
  pub same_mint : target.mint ≡ mint
  pub vault_gone : w'.accounts vault ≡ system_account
  pub credited : w'.accounts to ≡ token_account (record target { amount = target.amount + amount })
  pub elsewhere : (k : ℕ) → k ≢ vault → k ≢ to → w'.accounts k ≡ w.accounts k

-- The transfer has to empty the vault, or closing it fails.
pub empty_and_close_vault_lem :
    (p : Platform) (program escrow vault : ℕ) (e : Escrow) (to maker mint decimals amount : ℕ)
    (w w' : Chain)
    → Performs p
    → vault ≢ to
    → empty_and_close_vault p program escrow vault e to maker mint decimals amount w ≡ ok w'
    → IsDrained vault to mint amount w w'
unfolding empty_and_close_vault
empty_and_close_vault_lem p program escrow vault e to maker mint decimals amount w w' performs apart
      h =
    elim (through (p.invoke _ w) _ h) [
      | via w1 moved closed ↦
          let (_, m) =
            transfer_lem p program vault mint to escrow _ amount decimals w w1 performs apart
              moved in
          let (_, empty, (gone, kept)) =
            close_account_lem p program vault maker escrow _ w1 w' performs closed in
          record {
            target = m.target;
            held = ground (arith, m.enough, m.from_source, m.debited, empty);
            to_target = m.to_target;
            same_mint = m.mints.1;
            vault_gone = gone;
            credited = kept to (λ q. apart (sym q)) ∙ m.credited;
            elsewhere = λ k p q. kept k p ∙ m.elsewhere k p q;
          }
    ]

pub drained_to :
    {vault to mint amount : ℕ} {w w' : Chain} (d : IsDrained vault to mint amount w w')
    {t : TokenAccount}
    → w.accounts to ≡ token_account t
    → w'.accounts to ≡ token_account (record t { amount = t.amount + amount })
drained_to {amount} d at_to =
    d.credited
    ∙ ap (λ u. token_account (record u { amount = u.amount + amount }))
        (token_inj (sym d.to_target ∙ at_to))
