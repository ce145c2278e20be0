-- ===== src/Oracle/Callback.antt =====
-- The oracle's answer (instructions/process_oracle_callback.rs).
use q2_26_accel_v1c70ryg0d.Prelude.{
  ℕ, ◌≤◌, ◌≡◌, ◌↔◌, sym, ap, ◌∙◌, true, some, some-inj, length, leb, leb→le, le→leb, ◌==◌, ==_iff,
  ok, through, via, guard-eq-ok, guard_then, ok_then, arith,
}
use q2_26_accel_v1c70ryg0d.Prelude.Words.{Bytes}
use q2_26_accel_v1c70ryg0d.Oracle.{World, Host, space, serialized_len, load_state, store_state}
use q2_26_accel_v1c70ryg0d.Oracle.Handlers.{CallbackAccounts, process_oracle_callback}
use q2_26_accel_v1c70ryg0d.Oracle.Fits.{IsRunning, load_state_lem, store_state_lem}

-- The oracle's answer is stored exactly when the oracle's identity signs, for the program's state, with
-- at most 512 bytes, in every state that the program reaches after `initialize`; then the last
-- response is that answer and nothing else changes.
pub process_oracle_callback_iff :
    (h : Host) (a : CallbackAccounts) (response : Bytes) (authority : ℕ) (w w' : World)
    (r : IsRunning h authority w)
    → (process_oracle_callback h a response w ≡ ok w') ↔ (
        (a.identity_signed ≡ true)
        × (a.identity ≡ h.identity_address)
        × (a.oracle_state ≡ h.state_address h.state_bump)
        × (length response ≤ 512)
        × (w' ≡ record w { oracle_state = some (record r.state { last_response = response }) }))
unfolding process_oracle_callback store_state
process_oracle_callback_iff h a response authority w w' r = (
  λ e.
      let (signed, e1) = guard-eq-ok a.identity_signed _ _ e in
      elim (through (load_state w) _ e1) [
        | via s load e2 ↦
            let (key, e3) = guard-eq-ok (a.identity == h.identity_address) _ _ e2 in
            let (place, e4) = guard-eq-ok (a.oracle_state == h.state_address s.bump) _ _ e3 in
            let (short, e5) = guard-eq-ok (leb (length response) 512) _ _ e4 in
            let same = some-inj (sym (load_state_lem w s load) ∙ r.stored) in
            (
              signed,
              (==_iff _ _).0 key,
              (==_iff _ _).0 place ∙ ap h.state_address (ap (λ t. t.bump) same ∙ r.fits.derived.0),
              leb→le _ _ short,
              store_state_lem _ w w' e5
                  ∙ ap
                      (λ t. record w {
                        oracle_state = some (record t { last_response = response });
                      })
                      same,
            )
      ],
  λ (signed, key, place, short, result). guard_then a.identity_signed _ _ signed (
      ok_then (load_state w) _ {a = r.state} (ground (arith, r.stored)) (
        guard_then (a.identity == h.identity_address) _ _ ((==_iff _ _).1 key) (
          guard_then (a.oracle_state == h.state_address r.state.bump) _ _
            ((==_iff _ _).1 (place ∙ ap h.state_address (sym r.fits.derived.0)))
            (guard_then (leb (length response) 512) _ _ (le→leb _ _ short) (
              guard_then (leb (serialized_len (record r.state { last_response = response })) space)
                _ _ (le→leb _ _ (omega (arith, r.fits.prompt, short))) (ap ok (sym result))))))),
)
