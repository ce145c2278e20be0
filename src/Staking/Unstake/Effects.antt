-- ===== src/Staking/Unstake/Effects.antt =====
-- What an unstake demands, pays and leaves (instructions/unstake.rs).
use q2_26_accel_v1c70ryg0d.Prelude.{
  ℕ, zero, suc, ◌+◌, ◌*◌, ◌≡◌, ◌⊎◌, inl, inr, refl, subst, ap, true, false, some, List, [], ◌∷◌,
  ◌++◌, ok, through, via, guard-eq-ok, arith,
}
use q2_26_accel_v1c70ryg0d.Prelude.Int.{ℤ, pos, ◌+ℤ◌, ◌-ℤ◌, ◌≤ℤ◌, leb_ℤ, div_trunc, checked_i64}
use q2_26_accel_v1c70ryg0d.Prelude.Decimal.{codes, text_eq, show_i64, show_digits}
use q2_26_accel_v1c70ryg0d.Staking.{
  Attribute, Chain, Host, mint_to, asset_not_staked, freeze_period_not_elapsed,
}
use q2_26_accel_v1c70ryg0d.Staking.Laws.{Performs}
use q2_26_accel_v1c70ryg0d.Staking.Attributes.{
  Clocks, no_clocks, scan, text_false, key_staked, key_staked_at, key_last_claim,
}
use q2_26_accel_v1c70ryg0d.Staking.Attributes.Scan.{AreOthers, scan_written}
use q2_26_accel_v1c70ryg0d.Staking.Rewards.{whole_days, pay, seconds_per_day}
use q2_26_accel_v1c70ryg0d.Staking.Unstake.{claimed_until, unstaked_attributes, unstake_days}

-- What the clocks have to be for an unstake, and the days that are paid. The freeze period counts
-- from the stake, the days from the last claim.
pub record IsElapsed (freeze_period : ℕ) (now : ℤ) (c : Clocks) (days : ℤ) : Type 0 where
  pub staked : c.is_staked ≡ true
  pub elapsed : (freeze_period ≡ 0) ⊎ (c.staked_at +ℤ pos (freeze_period * seconds_per_day) ≤ℤ now)
  pub paid_for : whole_days now (claimed_until c.last_claim c.staked_at) ≡ ok days

elapsed_of_days :
    (freeze_period : ℕ) (now since days : ℤ)
    → whole_days now since ≡ ok days
    → leb_ℤ (pos freeze_period) days ≡ true
    → (freeze_period ≡ 0) ⊎ (since +ℤ pos (freeze_period * seconds_per_day) ≤ℤ now)
unfolding whole_days checked_i64 ◌+ℤ◌ ◌-ℤ◌ div_trunc
elapsed_of_days zero now since days h e = inl refl
elapsed_of_days (suc f) now since days h e = inr (ground arith)

pub unstake_days-IsElapsed :
    (freeze_period : ℕ) (now : ℤ) (c : Clocks) (days : ℤ)
    → unstake_days freeze_period now c ≡ ok days
    → IsElapsed freeze_period now c days
unfolding unstake_days
unstake_days-IsElapsed freeze_period now c days h =
    let (staked, h1) = guard-eq-ok c.is_staked asset_not_staked _ h in
    elim (through (whole_days now c.staked_at) _ h1) [
      | via d counted h2 ↦
          let (enough, h3) =
            guard-eq-ok (leb_ℤ (pos freeze_period) d) freeze_period_not_elapsed _ h2 in
          record {
            staked = staked;
            elapsed = elapsed_of_days freeze_period now c.staked_at d counted enough;
            paid_for = h3;
          }
    ]

-- Only the rewards change by a payment.
pub record IsPaid (w w' : Chain) (amount : ℕ) : Type 0 where
  pub rewards : w'.rewards ≡ w.rewards + amount
  pub attributes : w'.attributes ≡ w.attributes
  pub frozen : w'.frozen ≡ w.frozen
  pub collection_attributes : w'.collection_attributes ≡ w.collection_attributes

pub pay-IsPaid :
    (host : Host) (amount : ℕ) (w w' : Chain)
    → Performs host
    → pay host amount w ≡ ok w'
    → IsPaid w w' amount
unfolding pay
pay-IsPaid host zero w w' performs h = record {
  rewards = ground arith;
  attributes = ground arith;
  frozen = ground arith;
  collection_attributes = ground arith;
}
pay-IsPaid host (suc n) w w' performs h =
    let e = performs (mint_to (suc n)) w w' (ground arith) in
    record {
      rewards = ap (λ u. u.rewards) e;
      attributes = ap (λ u. u.attributes) e;
      frozen = ap (λ u. u.frozen) e;
      collection_attributes = ap (λ u. u.collection_attributes) e;
    }

zero_text : show_i64 (pos 0) ≡ codes "0"
unfolding show_i64 show_digits
zero_text = refl

pub scan_stopped :
    (kept : List Attribute)
    → AreOthers kept
    → scan false no_clocks (unstaked_attributes kept)
      ≡ ok (record { is_staked = false; staked_at = pos 0; last_claim = some (pos 0); kept = kept })
unfolding text_eq
scan_stopped kept others =
    subst
      (λ t.
        scan false no_clocks (
          kept
          ++ (record { key = key_staked; value = text_false }
              ∷ record { key = key_staked_at; value = t }
              ∷ record { key = key_last_claim; value = t }
              ∷ []))
        ≡ ok (record {
          is_staked = false;
          staked_at = pos 0;
          last_claim = some (pos 0);
          kept = kept;
        }))
      zero_text
      (scan_written kept (pos 0) (pos 0) text_false others (omega arith) (omega arith) (omega arith)
        (omega arith))
