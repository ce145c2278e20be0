-- ===== src/Fundraiser/Contribute/Amounts.antt =====
-- The arithmetic of contribute.rs: which amounts pass, and the two totals.
use q2_26_accel_v1c70ryg0d.Prelude.{ℕ, ◌+◌, ◌*◌, ◌/◌, ◌^◌, ◌≤◌, ◌≡◌, ◌↔◌, ok, arith}
use q2_26_accel_v1c70ryg0d.Prelude.Words.{u64_max, checked_u64}
use q2_26_accel_v1c70ryg0d.Fundraiser.State.{
  Fundraiser, amount_to_raise, current_amount, Contributor, amount,
}
use q2_26_accel_v1c70ryg0d.Fundraiser.Utils.{pow10}
use q2_26_accel_v1c70ryg0d.Fundraiser.Contribute.{new_amounts}

-- The conditions on an amount: at least one whole token, a contributor's total of at most a tenth
-- of the goal, and no overflow.
pub record IsAdmissible (f : Fundraiser) (c : Contributor) (decimals n : ℕ) : Type 0 where
  pub unit_fits : 10 ^ decimals ≤ u64_max
  pub one_token : 10 ^ decimals ≤ n
  pub goal_fits : amount_to_raise f * 10 ≤ u64_max
  pub at_most_tenth : amount c + n ≤ amount_to_raise f * 10 / 100
  pub total_fits : current_amount f + n ≤ u64_max

-- The checks pass exactly on the admissible amounts, and then both totals grow by the amount.
pub new_amounts_iff :
    (f : Fundraiser) (c : Contributor) (decimals n : ℕ) (r : ℕ × ℕ)
    → (new_amounts f c decimals n ≡ ok r)
      ↔ (IsAdmissible f c decimals n × (r ≡ (amount c + n, current_amount f + n)))
unfolding new_amounts pow10 checked_u64
new_amounts_iff f c decimals n r = ((λ h. (ground arith, ground arith)), λ v. ground arith)
