-- ===== src/Staking/Stake.antt =====
-- instructions/stake.rs.
pub mod Effects
use q2_26_accel_v1c70ryg0d.Prelude.{
  ℕ, Bool, true, false, Option, none, some, List, [], ◌∷◌, ◌++◌, Result, ok, err, ◌>>=◌, ◌>>◌,
}
use q2_26_accel_v1c70ryg0d.Prelude.Int.{ℤ, pos}
use q2_26_accel_v1c70ryg0d.Prelude.Decimal.{show_i64}
use q2_26_accel_v1c70ryg0d.Staking.{
  Attribute, ErrorCode, Chain, Host, Accounts, check_accounts, add_attributes, update_attributes,
  add_freeze, update_freeze,
}
use q2_26_accel_v1c70ryg0d.Staking.Attributes.{
  key_staked, key_staked_at, key_last_claim, text_true, keep_unstaked,
}
use q2_26_accel_v1c70ryg0d.Staking.Counters.{update_collection_staked_count}

abbrev pub attributes_or_empty : Option (List Attribute) → List Attribute
attributes_or_empty none = []
attributes_or_empty (some attributes) = attributes

abbrev pub staked_attributes : List Attribute → ℤ → List Attribute
staked_attributes kept now =
    kept
    ++ (record { key = key_staked; value = text_true }
        ∷ record { key = key_staked_at; value = show_i64 now }
        ∷ record { key = key_last_claim; value = show_i64 now }
        ∷ [])

abbrev pub write_attributes :
    Host → Option (List Attribute) → List Attribute → Chain → Result ErrorCode Chain
write_attributes host none attributes w = host.invoke (add_attributes attributes) w
write_attributes host (some old) attributes w = host.invoke (update_attributes attributes) w

abbrev pub freeze : Host → Option Bool → Chain → Result ErrorCode Chain
freeze host none w = host.invoke (add_freeze true) w
freeze host (some old) w = host.invoke (update_freeze true) w

unfoldable pub stake : Host → Accounts → Chain → Result ErrorCode Chain
stake host a w = do
  check_accounts a
  kept ← keep_unstaked [] (attributes_or_empty w.attributes)
  now ← host.unix_timestamp
  w1 ← write_attributes host w.attributes (staked_attributes kept now) w
  w2 ← freeze host w1.frozen w1
  update_collection_staked_count host (pos 1) w2
