-- ===== src/Escrow/Utils/Close.antt =====
-- `close_escrow_account` (refund.rs, take.rs): where the lamports go.
use q2_26_accel_v1c70ryg0d.Prelude.{◌+◌, ◌≤◌, ◌≡◌, ◌≢◌, ok, length, arith, through, via, ok_or}
use q2_26_accel_v1c70ryg0d.Prelude.Words.{checked_u64, u64_max}
use q2_26_accel_v1c70ryg0d.Solana.{
  World, AccountView, Address, Platform, arithmetic_overflow, update,
}
use q2_26_accel_v1c70ryg0d.Solana.Laws.{ClosesEmpty}
use q2_26_accel_v1c70ryg0d.Escrow.Utils.{close_escrow_account}

-- Closing the escrow moves all its lamports to the destination, without overflow, and leaves the
-- account empty.
pub close_escrow_account_lem :
    (p : Platform) (w w' : World) (v d : AccountView)
    → ClosesEmpty p
    → v.address ≢ d.address
    → close_escrow_account p w v d ≡ ok w'
    → ((w' d.address).lamports ≡ (w d.address).lamports + (w v.address).lamports)
      × ((w' d.address).lamports ≤ u64_max)
      × ((w' v.address).lamports ≡ 0)
      × (length (w' v.address).bytes ≡ 0)
unfolding close_escrow_account checked_u64
close_escrow_account_lem p w w' v d closes apart h =
    elim (through
      (ok_or (checked_u64 ((w d.address).lamports + (w v.address).lamports)) arithmetic_overflow) _
      h) [
        | via total e h1 ↦
            let w1 : World = update w d.address (record (w d.address) { lamports = total }) in
            let w2 : World = update w1 v.address (record (w1 v.address) { lamports = 0 }) in
            elim (through (p.close (w2 v.address)) _ h1) [
              | via closed e2 h2 ↦
                  let empty = closes (w2 v.address) closed e2 in
                  (ground arith, ground arith, ground (arith, empty.0), ground (arith, empty.1))
            ]
      ]

-- No third account changes.
pub close_escrow_account_ne :
    (p : Platform) (w w' : World) (v d : AccountView) (k : Address)
    → k ≢ v.address
    → k ≢ d.address
    → close_escrow_account p w v d ≡ ok w'
    → w' k ≡ w k
unfolding close_escrow_account
close_escrow_account_ne p w w' v d k kv kd h = ground arith
