-- ===== src/Shard/Range.antt =====
-- `NumRangeShard` over the ranges of `ParseNumSharding`: the shard of a key is its quotient.
use j7f.Base.{
  ℕ, zero, suc, ◌+◌, ◌-◌, ◌*◌, ◌/◌, ◌<◌, ◌≤◌, ◌^◌, ◌≡◌, refl, ap, ◌∙◌, List, [], ◌∷◌, none, some,
  arith, ◌&&◌, leb, ltb, if◌then◌else◌, inl, inr, Bool-cases,
}
use j7f.Base.Int.{pos, negsuc, ◌*ℤ◌, wrap_i64, to_i64-to_u64}
use j7f.Shard.{
  int, NumKeyRange, key_out_of_range, contains, num_ranges, parse_num_sharding, find_range,
  range_find, num_key,
}

mul_pos : (i l : ℕ) → pos i *ℤ pos l ≡ pos (i * l)
mul_pos i l = ground arith

wrap_small : (a : ℕ) → a < 2 ^ 63 → wrap_i64 (pos a) ≡ pos a
wrap_small a h = to_i64-to_u64 (pos a) (h, omega arith)

-- The range of the round `i`, where no product overflows.
contains_row :
    (l i v : ℕ)
    → (i + 1) * l < 2 ^ 63 - 1
    → contains
        (record { start = wrap_i64 (pos i *ℤ pos l); stop = wrap_i64 (pos (i + 1) *ℤ pos l) })
        (pos v)
      ≡ (leb (i * l) v && ltb v ((i + 1) * l))
unfolding contains
contains_row l i v h =
    rw
      (
        mul_pos i l,
        mul_pos (i + 1) l,
        wrap_small (i * l) (grind arith),
        wrap_small ((i + 1) * l) (grind arith),
      )
      (ground arith)

quotient_in_row : (l i v : ℕ) → 0 < l → i * l ≤ v → v < (i + 1) * l → v / l ≡ i
quotient_in_row l i v h p q = grind arith

find_range_lem :
    (l i n v : ℕ)
    → 0 < l
    → (i + n) * l < 2 ^ 63 - 1
    → i * l ≤ v
    → find_range i (num_ranges (pos l) i n) (pos v)
      ≡ (if ltb v ((i + n) * l) then (pos (v / l), none) else (negsuc 0, some key_out_of_range))
unfolding find_range num_ranges
find_range_lem l i zero v h k p = grind arith
find_range_lem l i (suc n) v h k p =
    let assoc : i + 1 + n ≡ i + suc n = omega arith in
    let below : (i + 1) * l ≤ (i + suc n) * l = grind arith in
    let row = contains_row l i v (omega arith) in
    let ih = rw assoc at (find_range_lem l (i + 1) n v h) in
    elim (Bool-cases (ltb v ((i + 1) * l))) [
      | inl q ↦ ground (arith, row, quotient_in_row l i v h p)
      | inr q ↦ ground (arith, row, ih)
    ]

-- For a positive row limit and number of ranges, with the product below 2 ^ 63 - 1,
-- `ParseNumSharding` returns ranges by which a key that is not negative belongs to the shard of
-- its quotient by the row limit, and past the last range to none, with an error.
pub range_find_quotient :
    (n l v : ℕ)
    → 0 < n
    → 0 < l
    → n * l < 2 ^ 63 - 1
    → (rs : List NumKeyRange) × (parse_num_sharding (pos n) (pos l) ≡ some rs)
      × (range_find rs (int (pos v) ∷ [])
          ≡ some (if ltb v (n * l) then (pos (v / l), none) else (negsuc 0, some key_out_of_range)))
unfolding parse_num_sharding range_find num_key num_ranges
range_find_quotient zero l v hn h k = absurd (omega arith)
range_find_quotient (suc n) l v hn h k =
    let e : 0 + suc n ≡ suc n = omega arith in
    let found = rw e at (find_range_lem l 0 (suc n) v h) in
    (num_ranges (pos l) 0 (suc n), refl, ap some (found k (omega arith)))

find_range_negative :
    (l i n v : ℕ)
    → (i + n) * l < 2 ^ 63 - 1
    → find_range i (num_ranges (pos l) i n) (negsuc v) ≡ (negsuc 0, some key_out_of_range)
unfolding find_range num_ranges contains
find_range_negative l i zero v k = refl
find_range_negative l i (suc n) v k =
    let assoc : i + 1 + n ≡ i + suc n = omega arith in
    let start : wrap_i64 (pos i *ℤ pos l) ≡ pos (i * l) =
      ap wrap_i64 (mul_pos i l) ∙ wrap_small (i * l) (grind arith) in
    ground (arith, start, rw assoc at (find_range_negative l (i + 1) n v))

-- For a row limit and a positive number of ranges with the product below 2 ^ 63 - 1, a negative
-- key is in none of the ranges of `ParseNumSharding`, and is reported out of range.
range_find_negative :
    (n l v : ℕ)
    → 0 < n
    → n * l < 2 ^ 63 - 1
    → (rs : List NumKeyRange) × (parse_num_sharding (pos n) (pos l) ≡ some rs)
      × (range_find rs (int (negsuc v) ∷ []) ≡ some (negsuc 0, some key_out_of_range))
unfolding parse_num_sharding range_find num_key num_ranges
range_find_negative zero l v hn k = absurd (omega arith)
range_find_negative (suc n) l v hn k =
    let e : 0 + suc n ≡ suc n = omega arith in
    let missed = rw e at (find_range_negative l 0 (suc n) v) in
    (num_ranges (pos l) 0 (suc n), refl, ap some (missed k))
