-- ===== src/AnchorEscrow/Once.antt =====
-- An offer of the Anchor escrow is settled once, and what it held comes back (lib.rs).
use q2_26_accel_v1c70ryg0d.Prelude.{
  ℕ, ◌≡◌, ◌≢◌, ◌⊎◌, inl, inr, sym, ap, ◌∙◌, Bool-cases, ok, ◌==◌, through, via, arith,
}
use q2_26_accel_v1c70ryg0d.AnchorEscrow.{
  Escrow, system_account, escrow_account, Chain, Platform, empty_and_close_vault,
}
use q2_26_accel_v1c70ryg0d.AnchorEscrow.Laws.{Performs}
use q2_26_accel_v1c70ryg0d.AnchorEscrow.Tokens.{close_escrow_lem}
use q2_26_accel_v1c70ryg0d.AnchorEscrow.Loads.{token_inj, escrow_not_system}
use q2_26_accel_v1c70ryg0d.AnchorEscrow.Reach.{IsOutside}
use q2_26_accel_v1c70ryg0d.AnchorEscrow.Make.{MakeAccounts, make}
use q2_26_accel_v1c70ryg0d.AnchorEscrow.Make.Effects.{make-IsOffered}
use q2_26_accel_v1c70ryg0d.AnchorEscrow.Take.{TakeAccounts, deposit_to_maker, swap, take}
use q2_26_accel_v1c70ryg0d.AnchorEscrow.Take.Run.{take-IsRun}
use q2_26_accel_v1c70ryg0d.AnchorEscrow.Refund.{RefundAccounts, refund}
use q2_26_accel_v1c70ryg0d.AnchorEscrow.Refund.Run.{refund-IsRun}
use q2_26_accel_v1c70ryg0d.AnchorEscrow.Refund.Effects.{refund-IsRefunded}

abbrev pub Settles : Platform → ℕ → Chain → Chain → Type 0
Settles p escrow w w' =
    ((a : TakeAccounts) × (a.escrow ≡ escrow) × (take p a w ≡ ok w'))
    ⊎ ((a : RefundAccounts) × (a.escrow ≡ escrow) × (refund p a w ≡ ok w'))

refund-closed :
    (p : Platform) (a : RefundAccounts) (w w' : Chain)
    → Performs p
    → refund p a w ≡ ok w'
    → ((e : Escrow) × (w.accounts a.escrow ≡ escrow_account e))
      × (w'.accounts a.escrow ≡ system_account)
refund-closed p a w w' performs h =
    let r = refund-IsRun p a w w' h in
    elim (through
      (empty_and_close_vault p a.token_program a.escrow a.vault r.e a.maker_ata_a a.maker a.mint_a
        r.m.decimals r.v.amount w)
      _ r.paid_out) [
        | via w1 _ closed ↦
            ((r.e, r.stored), (close_escrow_lem p a.escrow a.maker w1 w' performs closed).0)
      ]

take-closed :
    (p : Platform) (a : TakeAccounts) (w w' : Chain)
    → Performs p
    → take p a w ≡ ok w'
    → ((e : Escrow) × (w.accounts a.escrow ≡ escrow_account e))
      × (w'.accounts a.escrow ≡ system_account)
unfolding swap
take-closed p a w w' performs h =
    let r = take-IsRun p a w w' performs h in
    elim (through (deposit_to_maker p a r.n r.e r.w2) _ r.swapped) [
      | via w3 _ paid_out ↦
          elim (through
            (empty_and_close_vault p a.token_program a.escrow a.vault r.e a.taker_ata_a a.maker
              a.mint_a r.m.decimals r.v.amount w3)
            _ paid_out) [
              | via w4 _ closed ↦
                  ((r.e, r.stored), (close_escrow_lem p a.escrow a.maker w4 w' performs closed).0)
            ]
    ]

Settles-closed :
    (p : Platform) (escrow : ℕ) (w w' : Chain)
    → Performs p
    → Settles p escrow w w'
    → ((e : Escrow) × (w.accounts escrow ≡ escrow_account e))
      × (w'.accounts escrow ≡ system_account)
Settles-closed p escrow w w' performs (inl (a, here, h)) =
    let ((e, stored), gone) = take-closed p a w w' performs h in
    ((e, ap w.accounts (sym here) ∙ stored), ap w'.accounts (sym here) ∙ gone)
Settles-closed p escrow w w' performs (inr (a, here, h)) =
    let ((e, stored), gone) = refund-closed p a w w' performs h in
    ((e, ap w.accounts (sym here) ∙ stored), ap w'.accounts (sym here) ∙ gone)

-- Once an offer has been taken or refunded, with whatever accounts, it can be neither taken nor
-- refunded again after transactions of other programs. Laws: Performs.
pub settled_once :
    (p : Platform) (escrow : ℕ) (w w1 w2 w3 : Chain)
    → Performs p
    → Settles p escrow w w1
    → IsOutside w1 w2
    → ¬ Settles p escrow w2 w3
settled_once p escrow w w1 w2 w3 performs first outside second =
    let (_, gone) = Settles-closed p escrow w w1 performs first in
    let ((e, there), _) = Settles-closed p escrow w2 w3 performs second in
    escrow_not_system (sym (outside.escrows escrow e there) ∙ gone)

-- The accounts that belong to one offer.
pub record AreOf (a : MakeAccounts) (b : RefundAccounts) : Type 0 where
  pub maker_is : b.maker ≡ a.maker
  pub ata_is : b.maker_ata_a ≡ a.maker_ata_a
  pub escrow_is : b.escrow ≡ a.escrow
  pub vault_is : b.vault ≡ a.vault

-- An offer that is made and then refunded leaves every account as it was. Laws: Performs.
pub make-refund :
    (p : Platform) (a : MakeAccounts) (b : RefundAccounts) (seed deposit receive : ℕ)
    (w w1 w2 : Chain)
    → Performs p
    → a.escrow ≢ a.maker
    → AreOf a b
    → make p a seed deposit receive w ≡ ok w1
    → refund p b w1 ≡ ok w2
    → (k : ℕ) → w2.accounts k ≡ w.accounts k
make-refund p a b seed deposit receive w w1 w2 performs apart s made refunded k =
    let o = make-IsOffered p a seed deposit receive w w1 performs made in
    let r =
      refund-IsRefunded p b w1 w2 performs (λ q. apart (sym s.escrow_is ∙ q ∙ s.maker_is))
        refunded in
    elim (Bool-cases (k == a.escrow)) [
      | inl at ↦
          let e : k ≡ a.escrow = ground arith in
          ap w2.accounts (e ∙ sym s.escrow_is) ∙ r.closed.1 ∙ sym o.fresh.0 ∙ ap w.accounts (sym e)
      | inr off ↦ elim (Bool-cases (k == a.vault)) [
        | inl at ↦
            let e : k ≡ a.vault = ground arith in
            ap w2.accounts (e ∙ sym s.vault_is) ∙ r.closed.0 ∙ sym o.fresh.1 ∙ ap w.accounts (sym e)
        | inr off' ↦ elim (Bool-cases (k == a.maker_ata_a)) [
          | inl at ↦
              let e : k ≡ a.maker_ata_a = ground arith in
              let ata = token_inj (sym r.had ∙ ap w1.accounts s.ata_is ∙ o.paid) in
              let vault = token_inj (sym r.held ∙ ap w1.accounts s.vault_is ∙ o.funded) in
              ap w2.accounts (e ∙ sym s.ata_is)
              ∙ r.returned
              ∙ ground (arith, ata, vault, o.owned)
              ∙ sym o.had
              ∙ ap w.accounts (sym e)
          | inr off'' ↦
              r.elsewhere k (λ q. ground (arith, q, s.ata_is)) (λ q. ground (arith, q, s.vault_is))
                (λ q. ground (arith, q, s.escrow_is))
              ∙ o.elsewhere k (ground arith) (ground arith) (ground arith)
        ]
      ]
    ]
