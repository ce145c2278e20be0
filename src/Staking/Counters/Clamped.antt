-- ===== src/Staking/Counters/Clamped.antt =====
-- What the counters of a collection are after a stake and an unstake.
use q2_26_accel_v1c70ryg0d.Prelude.{
  ℕ, ◌≡◌, refl, subst, sym, ap, ◌∙◌, false, Option, none, some, List, [], ◌∷◌, ◌++◌, if◌then◌else◌,
  ok, through, via, arith, Option-cases, Bool-cases, inl, inr,
}
use mathlib.Core.List.{append-nil, append_assoc}
use q2_26_accel_v1c70ryg0d.Prelude.Int.{ℤ, pos, ◌+ℤ◌, ◌≤ℤ◌, i64_min, i64_max, checked_i64, ltb_ℤ}
use q2_26_accel_v1c70ryg0d.Prelude.Decimal.{parse_i64, parse_i64-show_i64, parse_i64-fits, text_eq}
use q2_26_accel_v1c70ryg0d.Staking.{
  Attribute, Chain, Host, add_collection_attributes, update_collection_attributes,
}
use q2_26_accel_v1c70ryg0d.Staking.Laws.{Performs}
use q2_26_accel_v1c70ryg0d.Staking.Counters.{
  Counters, no_counters, or_zero, count_step, count_all, counters_of, max_zero, new_counters,
  counter_attributes, write_counters, update_collection_staked_count, key_total_staked,
  key_total_staked_lifetime,
}

-- No counter.
abbrev pub AreOthers : List Attribute → Type 0
AreOthers [] = Unit {0}
AreOthers (a ∷ rest) =
    (text_eq a.key key_total_staked ≡ false)
    × (text_eq a.key key_total_staked_lifetime ≡ false)
    × AreOthers rest

append-AreOthers :
    (xs : List Attribute) (a : Attribute)
    → AreOthers xs
    → text_eq a.key key_total_staked ≡ false
    → text_eq a.key key_total_staked_lifetime ≡ false
    → AreOthers (xs ++ (a ∷ []))
append-AreOthers [] a h e f = (e, f, tt)
append-AreOthers (x ∷ xs) a (p, q, h) e f = (p, q, append-AreOthers xs a h e f)

count_step_other :
    (a : Attribute) (c : Counters)
    → text_eq a.key key_total_staked ≡ false
    → text_eq a.key key_total_staked_lifetime ≡ false
    → count_step a c ≡ record c { kept = c.kept ++ (a ∷ []) }
unfolding count_step
count_step_other a c p q = rw (p, q, count_step) refl

count_others :
    (c : Counters) (xs rest : List Attribute)
    → AreOthers xs
    → count_all c (xs ++ rest) ≡ count_all (record c { kept = c.kept ++ xs }) rest
unfolding count_all
count_others c [] rest h =
    ap (λ l. count_all (record c { kept = l }) rest) (sym (append-nil c.kept))
count_others c (x ∷ xs) rest (p, q, h) =
    ap (λ e. count_all e (xs ++ rest)) (count_step_other x c p q)
    ∙ (count_others (record c { kept = c.kept ++ (x ∷ []) }) xs rest h
        ∙ ap (λ l. count_all (record c { kept = l }) rest) (append_assoc c.kept (x ∷ []) xs))

count_step-AreOthers :
    (a : Attribute) (c : Counters) → AreOthers c.kept → AreOthers (count_step a c).kept
unfolding count_step
count_step-AreOthers a c h = ground (arith, append-AreOthers c.kept a h)

count_all-AreOthers :
    (c : Counters) (xs : List Attribute) → AreOthers c.kept → AreOthers (count_all c xs).kept
unfolding count_all
count_all-AreOthers c [] h = h
count_all-AreOthers c (x ∷ xs) h =
    count_all-AreOthers (count_step x c) xs (count_step-AreOthers x c h)

counters_of-AreOthers : (o : Option (List Attribute)) → AreOthers (counters_of o).kept
counters_of-AreOthers none = tt
counters_of-AreOthers (some xs) = count_all-AreOthers no_counters xs tt

-- What is written is read back.
count_written :
    (c : Counters)
    → AreOthers c.kept
    → i64_min ≤ℤ c.total_staked
    → c.total_staked ≤ℤ i64_max
    → i64_min ≤ℤ c.lifetime
    → c.lifetime ≤ℤ i64_max
    → count_all no_counters (counter_attributes c) ≡ c
unfolding count_all count_step counter_attributes text_eq
count_written c h a b d e =
    count_others no_counters c.kept _ h
    ∙ rw (parse_i64-show_i64 c.total_staked a b, parse_i64-show_i64 c.lifetime d e) refl

-- The lifetime counter is 0 or was parsed.
abbrev Fits : ℤ → Type 0
Fits a = (i64_min ≤ℤ a) × (a ≤ℤ i64_max)

or_zero-Fits : (t : List ℕ) → Fits (or_zero (parse_i64 t))
or_zero-Fits t = elim (Option-cases (parse_i64 t)) [
  | inl e ↦ rw e (omega arith, omega arith)
  | inr (a, e) ↦ rw e (parse_i64-fits t a e)
]

count_step-Fits : (a : Attribute) (c : Counters) → Fits c.lifetime → Fits (count_step a c).lifetime
unfolding count_step
count_step-Fits a c h = elim (Bool-cases (text_eq a.key key_total_staked)) [
  | inl e ↦ rw (e, count_step) h
  | inr e ↦ elim (Bool-cases (text_eq a.key key_total_staked_lifetime)) [
    | inl f ↦ rw (e, f, count_step) (or_zero-Fits a.value)
    | inr f ↦ rw (e, f, count_step) h
  ]
]

count_all-Fits :
    (c : Counters) (xs : List Attribute) → Fits c.lifetime → Fits (count_all c xs).lifetime
unfolding count_all
count_all-Fits c [] h = h
count_all-Fits c (x ∷ xs) h = count_all-Fits (count_step x c) xs (count_step-Fits x c h)

counters_of-Fits : (o : Option (List Attribute)) → Fits (counters_of o).lifetime
counters_of-Fits none = (omega arith, omega arith)
counters_of-Fits (some xs) = count_all-Fits no_counters xs (omega arith, omega arith)

-- The counters before and after, for a delta of 1 or -1.
pub record IsCounted (before after : Counters) (delta : ℤ) : Type 0 where
  pub total : after.total_staked ≡ max_zero (before.total_staked +ℤ delta)
  pub life :
      after.lifetime ≡ (if ltb_ℤ (pos 0) delta then before.lifetime +ℤ delta else before.lifetime)
  pub carried : after.kept ≡ before.kept

new_counters-IsCounted :
    (c c' : Counters) (delta : ℤ)
    → Fits c.lifetime
    → new_counters c delta ≡ ok c'
    → IsCounted c c' delta × Fits c'.total_staked × Fits c'.lifetime
unfolding new_counters checked_i64
new_counters-IsCounted c c' delta r h = (
  record { total = ground arith; life = ground arith; carried = ground arith },
  (ground arith, ground arith),
  (ground arith, ground arith),
)

write_counters_lem :
    (host : Host) (o : Option (List Attribute)) (l : List Attribute) (w w' : Chain)
    → Performs host
    → write_counters host o l w ≡ ok w'
    → w' ≡ record w { collection_attributes = some l }
write_counters_lem host none l w w' performs h = performs (add_collection_attributes l) w w' h
write_counters_lem host (some old) l w w' performs h =
    performs (update_collection_attributes l) w w' h

-- A count that succeeds changes the collection's attributes only. The counters that are read
-- from them afterwards are the old ones with the delta added: the current count not below zero,
-- the lifetime count only for a positive delta. Every other attribute is carried over in order.
-- Laws: Performs.
pub update_collection_staked_count-IsCounted :
    (host : Host) (delta : ℤ) (w w' : Chain)
    → Performs host
    → update_collection_staked_count host delta w ≡ ok w'
    → IsCounted (counters_of w.collection_attributes) (counters_of w'.collection_attributes) delta
      × (w' ≡ record w { collection_attributes = w'.collection_attributes })
unfolding update_collection_staked_count
update_collection_staked_count-IsCounted host delta w w' performs h =
    let before = counters_of w.collection_attributes in
    elim (through (new_counters before delta) _ h) [
      | via c e written ↦
          let (counted, a, b) =
            new_counters-IsCounted before c delta (counters_of-Fits w.collection_attributes) e in
          let others : AreOthers c.kept =
            subst AreOthers (sym counted.carried) (counters_of-AreOthers w.collection_attributes) in
          let put =
            write_counters_lem host w.collection_attributes (counter_attributes c) w w' performs
              written in
          let read : counters_of w'.collection_attributes ≡ c =
            ap (λ u. counters_of u.collection_attributes) put
            ∙ count_written c others a.0 a.1 b.0 b.1 in
          (
            subst (λ u. IsCounted before u delta) (sym read) counted,
            subst (λ u. u ≡ record w { collection_attributes = u.collection_attributes }) (sym put)
                refl,
          )
    ]
