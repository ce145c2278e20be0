-- ===== src/Oracle/Laws.antt =====
-- What the other programs are documented to do with the calls of the oracle scheduler.
use q2_26_accel_v1c70ryg0d.Prelude.{ℕ, ◌≡◌, ◌∷◌, ok, err, false}
use q2_26_accel_v1c70ryg0d.Oracle.{Error, foreign, Call, World, Host}

-- A call that succeeds does not write the program's account.
abbrev pub Records : Host → Type 0
Records h = (c : Call) (w w' : World) → h.invoke c w ≡ ok w' → w' ≡ record w { sent = c ∷ w.sent }

-- The default key is that of the system program, which is no account of the oracle.
abbrev pub DefaultIsNoContext : Host → Type 0
DefaultIsNoContext h = h.is_context h.default_key ≡ false

-- A call that fails hands its own error on.
abbrev pub FailsAsForeign : Host → Type 0
FailsAsForeign h =
    (c : Call) (w : World) (e : Error) → h.invoke c w ≡ err e → (n : ℕ) × (e ≡ foreign n)
