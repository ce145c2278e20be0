-- ===== src/Escrow/Once.antt =====
-- An escrow is settled once (src/lib.rs, src/instructions): after a take or a refund neither works on
-- it again.
