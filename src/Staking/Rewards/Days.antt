-- ===== src/Staking/Rewards/Days.antt =====
-- The days that are paid, over several payments.
use q2_26_accel_v1c70ryg0d.Prelude.{ℕ, ◌+◌, ◌-◌, ◌*◌, ◌/◌, ◌≡◌, subst, ok, arith}
use q2_26_accel_v1c70ryg0d.Prelude.Int.{
  ℤ, pos, pos_part, neg_part, ◌-ℤ◌, ◌+ℤ◌, ◌*ℤ◌, ◌≤ℤ◌, checked_i64, div_trunc, +ℤ_parts,
}
use q2_26_accel_v1c70ryg0d.Staking.Rewards.{seconds_per_day, whole_days}
use q2_26_accel_v1c70ryg0d.Staking.ClaimRewards.{new_last_claim}

-- The distance of two times.
abbrev pub since : ℤ → ℤ → ℕ
since now t = (pos_part now + neg_part t) - (neg_part now + pos_part t)

-- From an earlier time, the whole days are the quotient of the distance.
pub whole_days-since :
    (now t d : ℤ) → t ≤ℤ now → whole_days now t ≡ ok d → d ≡ pos (since now t / seconds_per_day)
unfolding whole_days checked_i64 ◌-ℤ◌ div_trunc
whole_days-since now t d before h = ground arith

new_last_claim_lem :
    (t s : ℤ) (n : ℕ) → new_last_claim t (pos n) ≡ ok s → s ≡ t +ℤ pos (n * seconds_per_day)
unfolding new_last_claim checked_i64 ◌*ℤ◌
new_last_claim_lem t s n h = ground arith

add_days : (m n : ℕ) → pos (m + n) ≡ pos m +ℤ pos n
unfolding ◌+ℤ◌
add_days m n = ground arith

-- Claiming early costs nothing: the days that a claim pays and those that are paid from its new
-- clock on are together the days that one payment at the end would have been for, provided that
-- the three times are in order and none of the four computations fails.
pub claims_add_up :
    (t now later s d d1 d2 : ℤ)
    → t ≤ℤ now
    → now ≤ℤ later
    → whole_days now t ≡ ok d1
    → new_last_claim t d1 ≡ ok s
    → whole_days later s ≡ ok d2
    → whole_days later t ≡ ok d
    → d ≡ d1 +ℤ d2
claims_add_up t now later s d d1 d2 before after h1 hs h2 h =
    let n = since now t / seconds_per_day in
    let e1 = whole_days-since now t d1 before h1 in
    let es = new_last_claim_lem t s n (subst (λ i. new_last_claim t i ≡ ok s) e1 hs) in
    let order : s ≤ℤ later = rw es (omega (arith, +ℤ_parts t (pos (n * seconds_per_day)))) in
    let e2 = whole_days-since later s d2 order h2 in
    let e = whole_days-since later t d (omega arith) h in
    let gap : since later t ≡ n * seconds_per_day + since later s =
      rw es (omega (arith, +ℤ_parts t (pos (n * seconds_per_day)))) in
    let quotient : since later t / seconds_per_day ≡ n + since later s / seconds_per_day =
      omega (arith, gap) in
    rw (e, e1, e2, quotient) (add_days n (since later s / seconds_per_day))
