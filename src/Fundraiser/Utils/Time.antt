-- ===== src/Fundraiser/Utils/Time.antt =====
-- The helpers of utils.rs against independent descriptions of what they compute.
use q2_26_accel_v1c70ryg0d.Prelude.{
  ℕ, ◌+◌, ◌*◌, ◌^◌, ◌<◌, ◌≡◌, ◌≢◌, ◌↔◌, true, ok, arith, ◌++◌, length, length-append, take-append,
  drop-append, length-append, le→leb, refl,
}
use q2_26_accel_v1c70ryg0d.Prelude.Int.{
  ℤ, pos, ◌+ℤ◌, ◌-ℤ◌, ◌≤ℤ◌, i64_min, i64_max, saturate_i64, div_trunc,
}
use q2_26_accel_v1c70ryg0d.Prelude.Words.{
  Bytes, to_le_bytes, length-to_le_bytes, from_le_bytes-to_le_bytes,
}
use q2_26_accel_v1c70ryg0d.Fundraiser.State.{Fundraiser, time_started}
use q2_26_accel_v1c70ryg0d.Fundraiser.Utils.{has_ended, read_u64, seconds_to_days}

-- The saturating subtraction and the truncating division do not matter: a campaign of `duration`
-- days, a byte, has ended exactly when the duration is not zero and the clock has reached the
-- start plus that many days, whatever the two timestamps of 64 bits are.
pub has_ended_iff :
    (f : Fundraiser) (now : ℤ)
    → f.duration < 256
    → i64_min ≤ℤ time_started f
    → time_started f ≤ℤ i64_max
    → i64_min ≤ℤ now
    → now ≤ℤ i64_max
    → (has_ended f now ≡ true)
      ↔ ((f.duration ≢ 0) × (time_started f +ℤ pos (f.duration * seconds_to_days) ≤ℤ now))
unfolding has_ended saturate_i64 div_trunc ◌-ℤ◌ ◌+ℤ◌
has_ended_iff f now d a b c e = ground arith

-- The word at an offset of the instruction data is the one that a client put there.
pub read_u64-to_le_bytes :
    (before after : Bytes) (n : ℕ)
    → n < 2 ^ 64
    → read_u64 (before ++ (to_le_bytes 8 n ++ after)) (length before) ≡ ok n
unfolding read_u64
read_u64-to_le_bytes before after n h =
    let size = length-append before (to_le_bytes 8 n ++ after) in
    let inner = length-append (to_le_bytes 8 n) after in
    let word = length-to_le_bytes 8 n in
    rw (
      le→leb (length before + 8) (length (before ++ (to_le_bytes 8 n ++ after))) (omega arith),
      drop-append (length before) before (to_le_bytes 8 n ++ after) refl,
      take-append 8 (to_le_bytes 8 n) after word,
      from_le_bytes-to_le_bytes 8 n h,
    )
