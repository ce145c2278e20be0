-- ===== src/Fundraiser/Refund/Once.antt =====
-- Refunds that are refused (pinocchio-fundraiser/src/instructions/refund.rs).
use q2_26_accel_v1c70ryg0d.Fundraiser.State.{Fundraiser}
