-- ===== src/AnchorEscrow/Program.antt =====
-- The instructions of the Anchor escrow (lib.rs). Anchor decodes the request.
use q2_26_accel_v1c70ryg0d.Prelude.{ℕ, Result}
use q2_26_accel_v1c70ryg0d.AnchorEscrow.{Error, Chain, Platform}
use q2_26_accel_v1c70ryg0d.AnchorEscrow.Make.{MakeAccounts, make}
use q2_26_accel_v1c70ryg0d.AnchorEscrow.Take.{TakeAccounts, take}
use q2_26_accel_v1c70ryg0d.AnchorEscrow.Refund.{RefundAccounts, refund}

pub data Request : Type 0 where
  make_request : MakeAccounts → (seed deposit receive : ℕ) → Request
  take_request : TakeAccounts → Request
  refund_request : RefundAccounts → Request

unfoldable pub run : Platform → Request → Chain → Result Error Chain
run p (make_request a seed deposit receive) w = make p a seed deposit receive w
run p (take_request a) w = take p a w
run p (refund_request a) w = refund p a w
