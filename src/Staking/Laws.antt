-- ===== src/Staking/Laws.antt =====
-- What the mpl-core and token programs are documented to do with the calls of the staking program.
use q2_26_accel_v1c70ryg0d.Prelude.{◌+◌, ◌≡◌, some, ok}
use q2_26_accel_v1c70ryg0d.Staking.{
  Chain, Call, Host, add_attributes, update_attributes, add_freeze, update_freeze,
  add_collection_attributes, update_collection_attributes, mint_to,
}

-- A plugin is replaced as a whole, and a mint adds to the account.
abbrev pub perform : Call → Chain → Chain
perform (add_attributes l) w = record w { attributes = some l }
perform (update_attributes l) w = record w { attributes = some l }
perform (add_freeze b) w = record w { frozen = some b }
perform (update_freeze b) w = record w { frozen = some b }
perform (add_collection_attributes l) w = record w { collection_attributes = some l }
perform (update_collection_attributes l) w = record w { collection_attributes = some l }
perform (mint_to n) w = record w { rewards = w.rewards + n }

-- A call that succeeds does that.
abbrev pub Performs : Host → Type 0
Performs host = (c : Call) (w w' : Chain) → host.invoke c w ≡ ok w' → w' ≡ perform c w
