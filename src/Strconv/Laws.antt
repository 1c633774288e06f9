-- ===== src/Strconv/Laws.antt =====
-- Reading what `Itoa` writes.
use native.Mathlib.Nat.{pow-suc}
use j7f.Base.{
  ℕ, zero, suc, ◌+◌, ◌-◌, ◌*◌, ◌/◌, ◌%◌, ◌^◌, ◌<◌, ◌≤◌, ◌≡◌, refl, sym, ap, ◌∙◌, false, [], ◌∷◌,
  ◌++◌, some, arith, Text, lt→ltb, ltb, if◌then◌else◌, inl, inr, Bool-cases,
}
use j7f.Base.Int.{ℤ, pos, negsuc, IsI64}
use j7f.Strconv.{digits, format_uint, itoa, scan_digits, parse_uint, parse_int}

scan_last :
    (limit a : ℕ) (s t : Text) (b : ℕ)
    → scan_digits limit a s ≡ some b
    → scan_digits limit a (s ++ t) ≡ scan_digits limit b t
unfolding scan_digits
scan_last limit a [] t b h = ground arith
scan_last limit a (c ∷ s) t b h = ground (arith, scan_last limit (a * 10 + (c - b'0')) s t b)

digits_step :
    (f n : ℕ)
    → digits (suc f) n
      ≡ (if ltb n 10 then (b'0' + n) ∷ [] else digits f (n / 10) ++ (b'0' + n % 10) ∷ [])
unfolding digits
digits_step f n = refl

scan_digit :
    (limit a d : ℕ)
    → d < 10
    → a * 10 + d < limit
    → scan_digits limit a ((b'0' + d) ∷ []) ≡ some (a * 10 + d)
unfolding scan_digits
scan_digit limit a d h k = ground arith

tenth_below : (f n : ℕ) → n < 10 ^ suc f → n / 10 < 10 ^ f
tenth_below f n h = omega (arith, pow-suc 10 f)

scan_nothing : (limit n : ℕ) → n ≡ 0 → scan_digits limit 0 (digits 0 n) ≡ some n
unfolding digits scan_digits
scan_nothing limit n h = ground arith

-- The digits of a number are read back, if it is below the limit.
scan_digits-digits :
    (f n limit : ℕ) → n < 10 ^ f → n < limit → scan_digits limit 0 (digits f n) ≡ some n
scan_digits-digits zero n limit h k = scan_nothing limit n (omega arith)
scan_digits-digits (suc f) n limit h k = elim (Bool-cases (ltb n 10)) [
  | inl q ↦
      rw (digits_step, q)
        (scan_digit limit 0 n (ground arith) (omega arith) ∙ ap some (omega arith))
  | inr q ↦
      rw (digits_step, q)
        (scan_last limit 0 (digits f (n / 10)) _ (n / 10)
            (scan_digits-digits f (n / 10) limit (tenth_below f n h) (omega arith))
          ∙ scan_digit limit (n / 10) (n % 10) (omega arith) (omega arith)
          ∙ ap some (omega arith))
]

digits_head :
    (f n : ℕ) → (c : ℕ) × (s : Text) × (digits (suc f) n ≡ c ∷ s) × (b'0' ≤ c) × (c ≤ b'9')
digits_head zero n = elim (Bool-cases (ltb n 10)) [
  | inl q ↦ (b'0' + n, [], rw (digits_step, q), omega arith, ground arith)
  | inr q ↦
      (b'0' + n % 10, [], rw (digits_step, q) (unfold digits in refl), omega arith, omega arith)
]
digits_head (suc f) n = elim (Bool-cases (ltb n 10)) [
  | inl q ↦ (b'0' + n, [], rw (digits_step, q), omega arith, ground arith)
  | inr q ↦
      let (c, s, e, x, y) = digits_head f (n / 10) in
      (c, s ++ (b'0' + n % 10) ∷ [], rw (digits_step, q, e), x, y)
]

format_head : (n : ℕ) → (c : ℕ) × (s : Text) × (format_uint n ≡ c ∷ s) × (b'0' ≤ c) × (c ≤ b'9')
unfolding format_uint
format_head n = digits_head 19 n

parse_cons : (c : ℕ) (s : Text) → parse_uint (c ∷ s) ≡ scan_digits (2 ^ 64) 0 (c ∷ s)
unfolding parse_uint
parse_cons c s = refl

-- `ParseUint` reads what `Itoa` writes of a uint64.
pub parse_uint-format_uint : (n : ℕ) → n < 2 ^ 64 → parse_uint (format_uint n) ≡ some n
unfolding format_uint
parse_uint-format_uint n h =
    let (c, s, e, x, y) = digits_head 19 n in
    ap parse_uint e
    ∙ parse_cons c s
    ∙ ap (scan_digits (2 ^ 64) 0) (sym e)
    ∙ scan_digits-digits 20 n (2 ^ 64) (omega arith) h

-- `ParseInt` reads what `Itoa` writes of an int64.
parse_int-itoa : (x : ℤ) → IsI64 x → parse_int (itoa x) ≡ some x
unfolding parse_int itoa
parse_int-itoa (pos n) h =
    let (c, s, e, x, y) = format_head n in ground (arith, parse_uint-format_uint n (omega arith))
parse_int-itoa (negsuc n) h = ground (arith, parse_uint-format_uint (suc n) (omega arith))

-- The digits of a small number, one by one.
digits_small : (f n : ℕ) → n < 10 → digits (suc f) n ≡ (b'0' + n) ∷ []
digits_small f n h = rw (digits_step, lt→ltb n 10 h)

digits_large : (f n : ℕ) → 10 ≤ n → digits (suc f) n ≡ digits f (n / 10) ++ (b'0' + n % 10) ∷ []
digits_large f n h = let e : ltb n 10 ≡ false = ground arith in rw (digits_step, e)

pub digits_one : (f n : ℕ) → n < 10 → digits (suc f) n ≡ (b'0' + n) ∷ []
digits_one f n h = digits_small f n h

pub digits_two :
    (f n : ℕ) → 10 ≤ n → n < 100 → digits (suc (suc f)) n ≡ (b'0' + n / 10) ∷ (b'0' + n % 10) ∷ []
digits_two f n h k = rw (digits_large (suc f) n h, digits_small f (n / 10) (omega arith))

pub digits_three :
    (f n : ℕ)
    → 100 ≤ n
    → n < 1000
    → digits (suc (suc (suc f))) n ≡ (b'0' + n / 100) ∷ (b'0' + n / 10 % 10) ∷ (b'0' + n % 10) ∷ []
digits_three f n h k =
    let e : n / 10 / 10 ≡ n / 100 = omega arith in
    rw (
      digits_large (suc (suc f)) n (omega arith),
      digits_two f (n / 10) (omega arith) (omega arith),
      e,
    )

pub digits_four :
    (f n : ℕ)
    → 1000 ≤ n
    → n < 10000
    → digits (suc (suc (suc (suc f)))) n
      ≡ (b'0' + n / 1000) ∷ (b'0' + n / 100 % 10) ∷ (b'0' + n / 10 % 10) ∷ (b'0' + n % 10) ∷ []
digits_four f n h k =
    let e : n / 10 / 100 ≡ n / 1000 = omega arith in
    let d : n / 10 / 10 ≡ n / 100 = omega arith in
    rw (
      digits_large (suc (suc (suc f))) n (omega arith),
      digits_three f (n / 10) (omega arith) (omega arith),
      e,
      d,
    )

-- Reads four digits, or two.
pub parse_digits :
    (c : ℕ) (s : Text) (n : ℕ)
    → b'0' ≤ c
    → c ≤ b'9'
    → scan_digits (2 ^ 64) 0 (c ∷ s) ≡ some n
    → n < 2 ^ 63
    → parse_int (c ∷ s) ≡ some (pos n)
unfolding parse_int
parse_digits c s n h k e l = ground (arith, parse_cons c s)

-- Reading on over one digit, and over the two digits of a number below 100.
scan_step :
    (limit a d : ℕ) (rest : Text)
    → d < 10
    → a * 10 + d < limit
    → scan_digits limit a ((b'0' + d) ∷ rest) ≡ scan_digits limit (a * 10 + d) rest
unfolding scan_digits
scan_step limit a d rest h k = ground arith

pub scan_two :
    (limit a n : ℕ) (rest : Text)
    → n < 100
    → a * 100 + n < limit
    → scan_digits limit a ((b'0' + n / 10) ∷ (b'0' + n % 10) ∷ rest)
      ≡ scan_digits limit (a * 100 + n) rest
scan_two limit a n rest h k =
    scan_step limit a (n / 10) _ (omega arith) (omega arith)
    ∙ scan_step limit (a * 10 + n / 10) (n % 10) rest (omega arith) (omega arith)
    ∙ ap (λ (x : ℕ). scan_digits limit x rest) (omega arith)

pub scan_end : (limit a : ℕ) → scan_digits limit a [] ≡ some a
unfolding scan_digits
scan_end limit a = refl
