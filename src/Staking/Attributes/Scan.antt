-- ===== src/Staking/Attributes/Scan.antt =====
-- The loops over attributes that are not the staking program's, and over those that it wrote.
use q2_26_accel_v1c70ryg0d.Prelude.{
  ℕ, ◌≡◌, refl, subst, sym, ap, ◌∙◌, Bool, false, some, List, [], ◌∷◌, ◌++◌, ok, through, via,
  arith,
}
use mathlib.Core.List.{append-nil, append_assoc}
use q2_26_accel_v1c70ryg0d.Prelude.Int.{ℤ, ◌≤ℤ◌, i64_min, i64_max}
use q2_26_accel_v1c70ryg0d.Prelude.Decimal.{show_i64, parse_i64-show_i64, text_eq}
use q2_26_accel_v1c70ryg0d.Staking.{Attribute}
use q2_26_accel_v1c70ryg0d.Staking.Attributes.{
  Kind, staked, staked_at, last_claim, other, kind_of, keep_step, keep_unstaked, Clocks, no_clocks,
  scan_step, scan, key_staked, key_staked_at, key_last_claim, text_true,
}

-- No attribute of the staking program.
abbrev pub AreOthers : List Attribute → Type 0
AreOthers [] = Unit {0}
AreOthers (a ∷ rest) = (kind_of a.key ≡ other) × AreOthers rest

append-AreOthers :
    (xs : List Attribute) (a : Attribute)
    → AreOthers xs
    → kind_of a.key ≡ other
    → AreOthers (xs ++ (a ∷ []))
append-AreOthers [] a h e = (e, tt)
append-AreOthers (x ∷ xs) a h e = (h.0, append-AreOthers xs a h.1 e)

-- Others are carried over in their order.
pub scan_others :
    (keep : Bool) (c : Clocks) (xs : List Attribute) (rest : List Attribute)
    → AreOthers xs
    → scan keep c (xs ++ rest) ≡ scan keep (record c { kept = c.kept ++ xs }) rest
unfolding scan
scan_others keep c [] rest h =
    ap (λ l. scan keep (record c { kept = l }) rest) (sym (append-nil c.kept))
scan_others keep c (x ∷ xs) rest h = rw (h.0) (
    scan_others keep (record c { kept = c.kept ++ (x ∷ []) }) xs rest h.1
    ∙ ap (λ l. scan keep (record c { kept = l }) rest) (append_assoc c.kept (x ∷ []) xs))

keep_step-AreOthers :
    (k : Kind) (a : Attribute) (kept r : List Attribute)
    → kind_of a.key ≡ k
    → AreOthers kept
    → keep_step k a kept ≡ ok r
    → AreOthers r
keep_step-AreOthers staked a kept r e h s = subst AreOthers (ground arith) h
keep_step-AreOthers staked_at a kept r e h s = subst AreOthers (ground arith) h
keep_step-AreOthers last_claim a kept r e h s = subst AreOthers (ground arith) h
keep_step-AreOthers other a kept r e h s =
    subst AreOthers (ground arith) (append-AreOthers kept a h e)

-- What the loop of `stake` keeps has none of the program's attributes.
pub keep_unstaked-AreOthers :
    (kept xs r : List Attribute) → AreOthers kept → keep_unstaked kept xs ≡ ok r → AreOthers r
unfolding keep_unstaked
keep_unstaked-AreOthers kept [] r h e = subst AreOthers (ground arith) h
keep_unstaked-AreOthers kept (x ∷ xs) r h e =
    elim (through (keep_step (kind_of x.key) x kept) _ e) [
      | via kept' step rest ↦
          keep_unstaked-AreOthers kept' xs r
            (keep_step-AreOthers (kind_of x.key) x kept kept' refl h step) rest
    ]

-- The attributes that `stake` and `unstake` write at the end of the list.
pub scan_written :
    (kept : List Attribute) (at until : ℤ) (flag : List ℕ)
    → AreOthers kept
    → i64_min ≤ℤ at
    → at ≤ℤ i64_max
    → i64_min ≤ℤ until
    → until ≤ℤ i64_max
    → scan false no_clocks (
        kept
        ++ (record { key = key_staked; value = flag }
            ∷ record { key = key_staked_at; value = show_i64 at }
            ∷ record { key = key_last_claim; value = show_i64 until }
            ∷ []))
      ≡ ok (record {
        is_staked = text_eq flag text_true;
        staked_at = at;
        last_claim = some until;
        kept = kept;
      })
unfolding scan kind_of text_eq
scan_written kept at until flag h a b c d =
    scan_others false no_clocks kept _ h
    ∙ rw (parse_i64-show_i64 at a b, parse_i64-show_i64 until c d) refl

scan_step-AreOthers :
    (k : Kind) (a : Attribute) (c r : Clocks)
    → kind_of a.key ≡ k
    → AreOthers c.kept
    → scan_step false k a c ≡ ok r
    → AreOthers r.kept
scan_step-AreOthers staked a c r e h s = subst AreOthers (ground arith) h
scan_step-AreOthers staked_at a c r e h s = subst AreOthers (ground arith) h
scan_step-AreOthers last_claim a c r e h s = subst AreOthers (ground arith) h
scan_step-AreOthers other a c r e h s =
    subst AreOthers (ground arith) (append-AreOthers c.kept a h e)

-- What the loop of `unstake` keeps has none of the program's attributes.
pub scan-AreOthers :
    (c : Clocks) (xs : List Attribute) (r : Clocks)
    → AreOthers c.kept
    → scan false c xs ≡ ok r
    → AreOthers r.kept
unfolding scan
scan-AreOthers c [] r h e = subst AreOthers (ground arith) h
scan-AreOthers c (x ∷ xs) r h e = elim (through (scan_step false (kind_of x.key) x c) _ e) [
  | via c' step rest ↦
      scan-AreOthers c' xs r (scan_step-AreOthers (kind_of x.key) x c c' refl h step) rest
]
