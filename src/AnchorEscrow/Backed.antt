-- ===== src/AnchorEscrow/Backed.antt =====
-- Every offer of the Anchor escrow has its vault (instructions/make.rs, take.rs and refund.rs).
use q2_26_accel_v1c70ryg0d.Prelude.{ℕ, ◌≡◌, ◌≢◌, sym, ap, ◌∙◌, ok, ◌>>=◌, through, via}
use q2_26_accel_v1c70ryg0d.AnchorEscrow.{
  Escrow, TokenAccount, escrow_account, token_account, Chain, Platform, close_escrow,
  empty_and_close_vault,
}
use q2_26_accel_v1c70ryg0d.AnchorEscrow.Laws.{Performs}
use q2_26_accel_v1c70ryg0d.AnchorEscrow.Tokens.{close_account_lem, close_escrow_lem}
use q2_26_accel_v1c70ryg0d.AnchorEscrow.Loads.{token_inj, token_not_escrow, escrow_not_system}
use q2_26_accel_v1c70ryg0d.AnchorEscrow.Owners.{StaysToken, Evolves, transfer-Evolves}

-- The offer stands at the address that the program derives for it, and the escrow owns a vault for
-- the maker's mint at the associated address.
pub record IsVaulted (p : Platform) (k : ℕ) (e : Escrow) (w : Chain) : Type 0 where
  pub derived : k ≡ p.escrow_address e.maker e.seed e.bump
  pub program : ℕ
  pub vault : TokenAccount
  pub stands : w.accounts (p.associated_address k e.mint_a program) ≡ token_account vault
  pub owner_is : vault.owner ≡ k
  pub mint_is : vault.mint ≡ e.mint_a

abbrev pub IsBacked : Platform → Chain → Type 0
IsBacked p w = (k : ℕ) (e : Escrow) → w.accounts k ≡ escrow_account e → IsVaulted p k e w

-- A vault that stays a token account of its owner and mint still backs the offer.
pub vaulted_stays :
    {p : Platform} {k : ℕ} {e : Escrow} {w : Chain} (w' : Chain) (b : IsVaulted p k e w)
    → StaysToken b.vault (w'.accounts (p.associated_address k e.mint_a b.program))
    → IsVaulted p k e w'
vaulted_stays w' b (u, at, owner, mint) = record {
  derived = b.derived;
  program = b.program;
  vault = u;
  stands = at;
  owner_is = owner ∙ b.owner_is;
  mint_is = mint ∙ b.mint_is;
}

pub Evolves-IsBacked :
    (p : Platform) (w w' : Chain) → Evolves w.accounts w'.accounts → IsBacked p w → IsBacked p w'
Evolves-IsBacked p w w' v backed k e h =
    let b = backed k e (v.escrows k e h) in vaulted_stays w' b (v.tokens _ b.vault b.stands)

-- Paying an offer out and closing it leaves every other offer its vault.
pub close_offer-IsBacked :
    (p : Platform) (program escrow vault : ℕ) (e : Escrow) (to maker mint decimals amount : ℕ)
    (v : TokenAccount) (w w' : Chain)
    → Performs p
    → w.accounts escrow ≡ escrow_account e
    → w.accounts vault ≡ token_account v
    → v.owner ≡ escrow
    → (empty_and_close_vault p program escrow vault e to maker mint decimals amount w >>= λ w1.
        p.invoke (close_escrow escrow maker) w1)
      ≡ ok w'
    → IsBacked p w
    → IsBacked p w'
unfolding empty_and_close_vault
close_offer-IsBacked p program escrow vault e to maker mint decimals amount v w w' performs stored
      held owner h backed k o at =
    elim (through (empty_and_close_vault p program escrow vault e to maker mint decimals amount w) _
      h) [
        | via w2 emptied closed ↦ elim (through (p.invoke _ w) _ emptied) [
          | via w1 moved drained ↦
              let step =
                transfer-Evolves p program vault mint to escrow _ amount decimals w w1 performs
                  moved in
              let (_, _, (vault_gone, kept_vault)) =
                close_account_lem p program vault maker escrow _ w1 w2 performs drained in
              let (escrow_gone, kept_escrow) =
                close_escrow_lem p escrow maker w2 w' performs closed in
              let other : k ≢ escrow =
                λ q. escrow_not_system (sym at ∙ ap w'.accounts q ∙ escrow_gone) in
              let at2 = sym (kept_escrow k other) ∙ at in
              let not_vault : k ≢ vault =
                λ q. escrow_not_system (sym at2 ∙ ap w2.accounts q ∙ vault_gone) in
              let b = backed k o (step.escrows k o (sym (kept_vault k not_vault) ∙ at2)) in
              let place = p.associated_address k o.mint_a b.program in
              let not_same : place ≢ vault = λ q.
                let same : b.vault ≡ v = token_inj (sym b.stands ∙ ap w.accounts q ∙ held) in
                other (sym b.owner_is ∙ ap (λ t. t.owner) same ∙ owner) in
              let not_escrow : place ≢ escrow =
                λ q. token_not_escrow (sym b.stands ∙ ap w.accounts q ∙ stored) in
              let (u, stands, owned, minted) = step.tokens place b.vault b.stands in
              vaulted_stays w' b (
                u,
                kept_escrow place not_escrow ∙ kept_vault place not_same ∙ stands,
                owned,
                minted,
              )
        ]
      ]
