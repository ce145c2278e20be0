-- ===== src/Staking/Counters.antt =====
-- The counters of a collection: `update_collection_staked_count` of utils.rs.
pub mod Clamped
use q2_26_accel_v1c70ryg0d.Prelude.{
  ℕ, Bool, true, false, Option, none, some, List, [], ◌∷◌, ◌++◌, if◌then◌else◌, Result, ok, err,
  ◌>>=◌, ◌>>◌, ok_or,
}
use q2_26_accel_v1c70ryg0d.Prelude.Int.{ℤ, pos, negsuc, ◌+ℤ◌, ltb_ℤ, leb_ℤ, checked_i64}
use q2_26_accel_v1c70ryg0d.Prelude.Decimal.{Text, codes, text_eq, parse_i64, show_i64}
use q2_26_accel_v1c70ryg0d.Staking.{
  Attribute, ErrorCode, arithmetic_overflow, Chain, Host, add_collection_attributes,
  update_collection_attributes,
}

abbrev pub key_total_staked : Text
key_total_staked = codes "total_staked"

abbrev pub key_total_staked_lifetime : Text
key_total_staked_lifetime = codes "total_staked_lifetime"

pub record Counters : Type 0 where
  pub total_staked : ℤ
  pub lifetime : ℤ
  pub kept : List Attribute

abbrev pub no_counters : Counters
no_counters = record { total_staked = pos 0; lifetime = pos 0; kept = [] }

-- `unwrap_or(0)`
abbrev pub or_zero : Option ℤ → ℤ
or_zero none = pos 0
or_zero (some a) = a

unfoldable pub count_step : Attribute → Counters → Counters
count_step a c =
    if text_eq a.key key_total_staked
    then record c { total_staked = or_zero (parse_i64 a.value) }
    else if text_eq a.key key_total_staked_lifetime
    then record c { lifetime = or_zero (parse_i64 a.value) }
    else record c { kept = c.kept ++ (a ∷ []) }

unfoldable pub count_all : Counters → List Attribute → Counters
count_all c [] = c
count_all c (a ∷ rest) = count_all (count_step a c) rest

-- `existing`, `none` if the collection has no attributes.
abbrev pub counters_of : Option (List Attribute) → Counters
counters_of none = no_counters
counters_of (some attributes) = count_all no_counters attributes

abbrev pub max_zero : ℤ → ℤ
max_zero a = if ltb_ℤ a (pos 0) then pos 0 else a

unfoldable pub new_counters : Counters → ℤ → Result ErrorCode Counters
new_counters c delta = do
  total ← ok_or (checked_i64 (c.total_staked +ℤ delta)) arithmetic_overflow
  lifetime ←
      (if ltb_ℤ (pos 0) delta
        then ok_or (checked_i64 (c.lifetime +ℤ delta)) arithmetic_overflow
        else ok c.lifetime)
  ok (record { total_staked = max_zero total; lifetime = lifetime; kept = c.kept })

unfoldable pub counter_attributes : Counters → List Attribute
counter_attributes c =
    c.kept
    ++ (record { key = key_total_staked; value = show_i64 c.total_staked }
        ∷ record { key = key_total_staked_lifetime; value = show_i64 c.lifetime }
        ∷ [])

abbrev pub write_counters :
    Host → Option (List Attribute) → List Attribute → Chain → Result ErrorCode Chain
write_counters host none attributes w = host.invoke (add_collection_attributes attributes) w
write_counters host (some old) attributes w =
    host.invoke (update_collection_attributes attributes) w

unfoldable pub update_collection_staked_count : Host → ℤ → Chain → Result ErrorCode Chain
update_collection_staked_count host delta w = do
  c ← new_counters (counters_of w.collection_attributes) delta
  write_counters host w.collection_attributes (counter_attributes c) w
