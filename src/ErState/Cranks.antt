-- ===== src/ErState/Cranks.antt =====
-- Scheduled updates and the life of an account (scheduled_update.rs, schedule_tuktuk_update.rs,
-- init_user.rs and close_user.rs of the state account).
