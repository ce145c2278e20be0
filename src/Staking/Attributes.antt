-- ===== src/Staking/Attributes.antt =====
-- The staking attributes of an asset: the constants of constants.rs, and the loops over the
-- attribute list of instructions/stake.rs, unstake.rs and claim_rewards.rs.
pub mod Scan
pub mod Rescan
pub mod Alike
use q2_26_accel_v1c70ryg0d.Prelude.{
  ℕ, Bool, true, false, Option, none, some, List, [], ◌∷◌, ◌++◌, if◌then◌else◌, Result, ok, err,
  ◌>>=◌, ◌>>◌, guard, ok_or,
}
use q2_26_accel_v1c70ryg0d.Prelude.Int.{ℤ, pos}
use q2_26_accel_v1c70ryg0d.Prelude.Decimal.{Text, codes, text_eq, parse_i64}
use q2_26_accel_v1c70ryg0d.Staking.{Attribute, ErrorCode, already_staked, invalid_timestamp}

abbrev pub key_staked : Text
key_staked = codes "staked"

abbrev pub key_staked_at : Text
key_staked_at = codes "staked_at"

abbrev pub key_last_claim : Text
key_last_claim = codes "last_claim"

abbrev pub text_true : Text
text_true = codes "true"

abbrev pub text_false : Text
text_false = codes "false"

pub data Kind : Type 0 where
  staked staked_at last_claim other : Kind

-- `match attribute.key.as_str()`
unfoldable pub kind_of : Text → Kind
kind_of key =
    if text_eq key key_staked
    then staked
    else if text_eq key key_staked_at
    then staked_at
    else if text_eq key key_last_claim
    then last_claim
    else other

-- The loop of `stake`: the other attributes, unless the asset is staked.
abbrev pub keep_step : Kind → Attribute → List Attribute → Result ErrorCode (List Attribute)
keep_step staked a kept = do guard (text_eq a.value text_false) already_staked; ok kept
keep_step staked_at a kept = ok kept
keep_step last_claim a kept = ok kept
keep_step other a kept = ok (kept ++ (a ∷ []))

unfoldable pub keep_unstaked : List Attribute → List Attribute → Result ErrorCode (List Attribute)
keep_unstaked kept [] = ok kept
keep_unstaked kept (a ∷ rest) = do
  kept' ← keep_step (kind_of a.key) a kept
  keep_unstaked kept' rest

-- The variables of the loops of `unstake` and `claim_rewards`. The one keeps only the other
-- attributes, the other the first two of the staking attributes as well.
pub record Clocks : Type 0 where
  pub is_staked : Bool
  pub staked_at : ℤ
  pub last_claim : Option ℤ
  pub kept : List Attribute

abbrev pub no_clocks : Clocks
no_clocks = record { is_staked = false; staked_at = pos 0; last_claim = none; kept = [] }

abbrev pub keep_if : Bool → Attribute → List Attribute → List Attribute
keep_if b a kept = if b then kept ++ (a ∷ []) else kept

abbrev pub scan_step : Bool → Kind → Attribute → Clocks → Result ErrorCode Clocks
scan_step keep staked a c =
    ok (record c { is_staked = text_eq a.value text_true; kept = keep_if keep a c.kept })
scan_step keep staked_at a c = do
  t ← ok_or (parse_i64 a.value) invalid_timestamp
  ok (record c { staked_at = t; kept = keep_if keep a c.kept })
scan_step keep last_claim a c = do
  t ← ok_or (parse_i64 a.value) invalid_timestamp
  ok (record c { last_claim = some t })
scan_step keep other a c = ok (record c { kept = c.kept ++ (a ∷ []) })

unfoldable pub scan : Bool → Clocks → List Attribute → Result ErrorCode Clocks
scan keep c [] = ok c
scan keep c (a ∷ rest) = do c' ← scan_step keep (kind_of a.key) a c; scan keep c' rest
