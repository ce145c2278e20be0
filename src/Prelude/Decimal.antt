-- ===== src/Prelude/Decimal.antt =====
-- Decimal text: `i64::to_string` and `str::parse::<i64>`, over the bytes of the text.
use q2_26_accel_v1c70ryg0d.Prelude.Tests.{ltb, leb, ◌==◌, if◌then◌else◌, Bool-cases, lt→ltb}
use q2_26_accel_v1c70ryg0d.Prelude.Int.{ℤ, pos, negsuc, checked_i64, sub_ℕ, ◌≤ℤ◌, i64_min, i64_max}
use Prim.Native.Nat.{ℕ, zero, suc, ◌+◌, ◌-◌, ◌*◌, ◌/◌, ◌%◌, ◌^◌, ◌≤◌, ◌<◌}
use Prim.Native.String.{String}
use Prim.Native.Char.{code}
use mathlib.Core.Path.{◌≡◌, refl, ap}
use mathlib.Core.Logic.{inl, inr}
use mathlib.Core.Bool.{Bool, true, false, ◌&&◌}
use mathlib.Core.Option.{Option, none, some}
use mathlib.Core.Option
use mathlib.Core.List.{List, [], ◌∷◌, ◌++◌}
use native.Mathlib.Omega.{arith}
use native.Mathlib.Nat.{pow-suc}

-- A text is its bytes.
abbrev pub Text : Type 0
Text = List ℕ

abbrev pub codes : String → Text
codes String.[] = []
codes (String.◌∷◌ c s) = code c ∷ codes s

-- Equality of texts.
unfoldable pub text_eq : Text → Text → Bool
text_eq [] [] = true
text_eq [] (_ ∷ _) = false
text_eq (_ ∷ _) [] = false
text_eq (a ∷ s) (b ∷ t) = a == b && text_eq s t

abbrev is_digit : ℕ → Bool
is_digit c = leb b'0' c && leb c b'9'

-- The digits from the left, onto a value.
unfoldable pub parse_digits : ℕ → Text → Option ℕ
parse_digits acc [] = some acc
parse_digits acc (c ∷ cs) = if is_digit c then parse_digits (acc * 10 + (c - 48)) cs else none

-- At least one digit.
unfoldable pub parse_unsigned : Text → Option ℕ
parse_unsigned [] = none
parse_unsigned (c ∷ cs) = parse_digits 0 (c ∷ cs)

abbrev in_range : Option ℤ → Option ℤ
in_range none = none
in_range (some a) = checked_i64 a

-- An optional sign, digits, and no overflow.
unfoldable pub parse_i64 : Text → Option ℤ
parse_i64 [] = none
parse_i64 (c ∷ cs) =
    if c == b'-'
    then in_range (Option.map (sub_ℕ 0) (parse_unsigned cs))
    else if c == b'+'
    then in_range (Option.map pos (parse_unsigned cs))
    else in_range (Option.map pos (parse_unsigned (c ∷ cs)))

-- The digits of a number below 10 to the fuel.
unfoldable pub show_digits : ℕ → ℕ → Text
show_digits zero n = []
show_digits (suc f) n =
    let front = show_digits f (n / 10) in
    if ltb n 10 then (48 + n) ∷ [] else front ++ (48 + n % 10) ∷ []

-- Twenty digits hold every 64-bit number.
unfoldable pub show_i64 : ℤ → Text
show_i64 (pos n) = show_digits 20 n
show_i64 (negsuc n) = b'-' ∷ show_digits 20 (suc n)

abbrev push_digit : Option ℕ → ℕ → Option ℕ
push_digit none d = none
push_digit (some n) d = some (n * 10 + d)

parse_digits-append :
    (acc d : ℕ) (cs : Text)
    → d < 10
    → parse_digits acc (cs ++ (48 + d) ∷ []) ≡ push_digit (parse_digits acc cs) d
unfolding parse_digits
parse_digits-append acc d [] h = ground arith
parse_digits-append acc d (c ∷ cs) h =
    ground (arith, parse_digits-append (acc * 10 + (c - 48)) d cs h)

parse_digits-one : (n : ℕ) → n < 10 → parse_digits 0 ((48 + n) ∷ []) ≡ some n
unfolding parse_digits
parse_digits-one n h = ground arith

show_digits_small : (f n : ℕ) → ltb n 10 ≡ true → show_digits (suc f) n ≡ (48 + n) ∷ []
unfolding show_digits
show_digits_small f n h = rw h

show_digits_large :
    (f n : ℕ)
    → ltb n 10 ≡ false
    → show_digits (suc f) n ≡ show_digits f (n / 10) ++ (48 + n % 10) ∷ []
unfolding show_digits
show_digits_large f n h = rw h

-- Printing and parsing the digits gives the number back.
parse_digits-show_digits :
    (f n : ℕ) → n < 10 ^ suc f → parse_digits 0 (show_digits (suc f) n) ≡ some n
parse_digits-show_digits zero n h =
    let small : n < 10 = omega arith in
    rw (show_digits_small 0 n (lt→ltb n 10 small)) (parse_digits-one n small)
parse_digits-show_digits (suc f) n h =
    let bound : n < 10 ^ suc f * 10 = rw pow-suc at h in
    elim (Bool-cases (ltb n 10)) [
      | inl small ↦ rw (show_digits_small (suc f) n small) (parse_digits-one n (ground arith))
      | inr large ↦
          rw
            (
              show_digits_large (suc f) n large,
              parse_digits-append 0 (n % 10) (show_digits (suc f) (n / 10)) (omega arith),
              parse_digits-show_digits f (n / 10) (omega arith),
            )
            (ap some (omega arith))
    ]

-- The first byte that is printed is a digit.
show_digits_none : (n : ℕ) → show_digits 0 n ≡ []
unfolding show_digits
show_digits_none n = refl

show_digits-head : (f n : ℕ) → (c : ℕ) × (cs : Text) × (show_digits (suc f) n ≡ c ∷ cs) × (48 ≤ c)
show_digits-head zero n = elim (Bool-cases (ltb n 10)) [
  | inl small ↦ (48 + n, [], show_digits_small 0 n small, omega arith)
  | inr large ↦
      (48 + n % 10, [], rw (show_digits_large 0 n large, show_digits_none (n / 10)), omega arith)
]
show_digits-head (suc f) n = elim (Bool-cases (ltb n 10)) [
  | inl small ↦ (48 + n, [], show_digits_small (suc f) n small, omega arith)
  | inr large ↦
      let (c, cs, e, digit) = show_digits-head f (n / 10) in
      (c, cs ++ (48 + n % 10) ∷ [], rw (show_digits_large (suc f) n large, e), digit)
]

unsigned_of_digits :
    (t : Text) {n c : ℕ} {cs : Text}
    → t ≡ c ∷ cs
    → parse_digits 0 t ≡ some n
    → parse_unsigned t ≡ some n
unfolding parse_unsigned
unsigned_of_digits [] e h = cc
unsigned_of_digits (c ∷ cs) e h = h

parse_unsigned-show : (n : ℕ) → n < 10 ^ 20 → parse_unsigned (show_digits 20 n) ≡ some n
parse_unsigned-show n h =
    let (c, cs, e, digit) = show_digits-head 19 n in
    unsigned_of_digits (show_digits 20 n) e (parse_digits-show_digits 19 n h)

parse_positive :
    (t : Text) (n : ℕ) {c : ℕ} {cs : Text}
    → t ≡ c ∷ cs
    → 48 ≤ c
    → parse_unsigned t ≡ some n
    → pos n ≤ℤ i64_max
    → parse_i64 t ≡ some (pos n)
unfolding parse_i64 checked_i64
parse_positive [] n e digit h hi = cc
parse_positive (d ∷ t) n e digit h hi = ground arith

parse_negative :
    (t : Text) (n : ℕ)
    → parse_unsigned t ≡ some (suc n)
    → i64_min ≤ℤ negsuc n
    → parse_i64 (b'-' ∷ t) ≡ some (negsuc n)
unfolding parse_i64 checked_i64
parse_negative t n h lo = ground arith

-- A 64-bit number is printed and parsed back.
pub parse_i64-show_i64 : (a : ℤ) → i64_min ≤ℤ a → a ≤ℤ i64_max → parse_i64 (show_i64 a) ≡ some a
unfolding show_i64
parse_i64-show_i64 (pos n) lo hi =
    let (c, cs, e, digit) = show_digits-head 19 n in
    parse_positive (show_digits 20 n) n e digit (parse_unsigned-show n (omega arith)) hi
parse_i64-show_i64 (negsuc n) lo hi =
    parse_negative (show_digits 20 (suc n)) n (parse_unsigned-show (suc n) (omega arith)) lo

in_range-fits : (o : Option ℤ) (a : ℤ) → in_range o ≡ some a → (i64_min ≤ℤ a) × (a ≤ℤ i64_max)
unfolding checked_i64
in_range-fits none a h = cc
in_range-fits (some b) a h = ground arith

abbrev Fits : ℤ → Type 0
Fits a = (i64_min ≤ℤ a) × (a ≤ℤ i64_max)

both_branches :
    (b : Bool) (x y : Option ℤ) (a : ℤ)
    → (x ≡ some a → Fits a)
    → (y ≡ some a → Fits a)
    → (if b then x else y) ≡ some a
    → Fits a
both_branches true x y a f g h = f h
both_branches false x y a f g h = g h

-- What is parsed is a 64-bit number.
pub parse_i64-fits : (t : Text) (a : ℤ) → parse_i64 t ≡ some a → (i64_min ≤ℤ a) × (a ≤ℤ i64_max)
unfolding parse_i64
parse_i64-fits [] a h = cc
parse_i64-fits (c ∷ cs) a h =
    let minus = in_range (Option.map (sub_ℕ 0) (parse_unsigned cs)) in
    let plus = in_range (Option.map pos (parse_unsigned cs)) in
    let plain = in_range (Option.map pos (parse_unsigned (c ∷ cs))) in
    both_branches (c == b'-') minus (if c == b'+' then plus else plain) a
      (in_range-fits (Option.map (sub_ℕ 0) (parse_unsigned cs)) a)
      (both_branches (c == b'+') plus plain a (in_range-fits (Option.map pos (parse_unsigned cs)) a)
        (in_range-fits (Option.map pos (parse_unsigned (c ∷ cs))) a))
      h
