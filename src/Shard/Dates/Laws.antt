-- ===== src/Shard/Dates/Laws.antt =====
-- The number of a date shard, for a time and for a text.
use j7f.Base.{
  false, ◌^◌, ℕ, ◌+◌, ◌*◌, ◌/◌, ◌%◌, ◌<◌, ◌≡◌, refl, ap, ◌∙◌, [], ◌∷◌, ◌++◌, none, some, arith,
  Text, ltb, length, Bool-cases, ltb→lt, inl, inr,
}
use j7f.Base.Int.{ℤ, pos}
use j7f.Strconv.Laws.{
  digits_one, digits_two, digits_three, digits_four, parse_digits, scan_two, scan_end,
}
use j7f.Strconv.{format_uint, atoi, scan_digits}
use j7f.Shard.{int, string, invalid_date}
use j7f.Shard.Dates.{
  Date, pad, format_date, substring, month_text, day_text, day_of_time, month_of_time, day_find,
  month_find, year_find,
}

four : ℕ → Text
four n = (b'0' + n / 1000) ∷ (b'0' + n / 100 % 10) ∷ (b'0' + n / 10 % 10) ∷ (b'0' + n % 10) ∷ []

pad2 : (n : ℕ) → n < 100 → pad 2 n ≡ (b'0' + n / 10) ∷ (b'0' + n % 10) ∷ []
unfolding pad format_uint
pad2 n h = elim (Bool-cases (ltb n 10)) [
  | inl q ↦ rw (digits_one 19 n (ltb→lt n 10 q)) (ground arith)
  | inr q ↦ rw (digits_two 18 n (ground arith) h) refl
]

pad4 : (n : ℕ) → n < 10000 → pad 4 n ≡ four n
unfolding pad format_uint four
pad4 n h = elim (Bool-cases (ltb n 10)) [
  | inl q ↦ rw (digits_one 19 n (ltb→lt n 10 q)) (ground arith)
  | inr q ↦ elim (Bool-cases (ltb n 100)) [
    | inl r ↦ rw (digits_two 18 n (ground arith) (ltb→lt n 100 r)) (ground arith)
    | inr r ↦ elim (Bool-cases (ltb n 1000)) [
      | inl s ↦ rw (digits_three 17 n (ground arith) (ltb→lt n 1000 s)) (ground arith)
      | inr s ↦ rw (digits_four 16 n (ground arith) h) refl
    ]
  ]
]

-- A date whose year has four digits.
pub record IsPlain (d : Date) (y : ℕ) : Type 0 where
  pub positive : d.year ≡ pos y
  pub year_below : y < 10000
  pub month_below : d.month < 100
  pub day_below : d.day < 100

abbrev two : ℕ → Text → Text
two n rest = (b'0' + n / 10) ∷ (b'0' + n % 10) ∷ rest

format_plain :
    (d : Date) (y : ℕ)
    → IsPlain d y
    → format_date d ≡ four y ++ b'-' ∷ two d.month (b'-' ∷ two d.day [])
unfolding format_date
format_plain d y h =
    rw (h.positive, pad4 y h.year_below, pad2 d.month h.month_below, pad2 d.day h.day_below)

scan_four :
    (y : ℕ) (rest : Text)
    → y < 10000
    → scan_digits (2 ^ 64) 0 (four y ++ rest) ≡ scan_digits (2 ^ 64) y rest
unfolding four
scan_four y rest h =
    let e : y / 10 % 10 ≡ y % 100 / 10 = omega arith in
    let f : y % 10 ≡ y % 100 % 10 = omega arith in
    let g : y / 1000 ≡ y / 100 / 10 = omega arith in
    rw (e, f, g)
      (scan_two (2 ^ 64) 0 (y / 100) _ (omega arith) (omega arith)
        ∙ scan_two (2 ^ 64) (0 * 100 + y / 100) (y % 100) rest (omega arith) (omega arith)
        ∙ ap (λ (x : ℕ). scan_digits (2 ^ 64) x rest) (omega arith))

atoi_day :
    (y m d : ℕ)
    → y < 10000
    → m < 100
    → d < 100
    → atoi (four y ++ two m (two d [])) ≡ some (pos (y * 10000 + m * 100 + d))
unfolding four
atoi_day y m d hy hm hd =
    parse_digits (b'0' + y / 1000) _ (y * 10000 + m * 100 + d) (omega arith) (omega arith)
      (scan_four y (two m (two d [])) hy
        ∙ scan_two (2 ^ 64) y m (two d []) hm (omega arith)
        ∙ scan_two (2 ^ 64) (y * 100 + m) d [] hd (omega arith)
        ∙ scan_end (2 ^ 64) _
        ∙ ap some (omega arith))
      (omega arith)

atoi_month : (y m : ℕ) → y < 10000 → m < 100 → atoi (four y ++ two m []) ≡ some (pos (y * 100 + m))
unfolding four
atoi_month y m hy hm =
    parse_digits (b'0' + y / 1000) _ (y * 100 + m) (omega arith) (omega arith)
      (scan_four y (two m []) hy ∙ scan_two (2 ^ 64) y m [] hm (omega arith) ∙ scan_end (2 ^ 64) _)
      (omega arith)

-- What the code cuts out of a text that begins with such a date.
abbrev dated : ℕ → ℕ → ℕ → Text → Text
dated y m d rest = four y ++ b'-' ∷ two m (b'-' ∷ two d rest)

day_text_plain :
    (y m d : ℕ) (rest : Text) → day_text (dated y m d rest) ≡ some (four y ++ two m (two d []))
unfolding day_text four
day_text_plain y m d rest = ground arith

month_text_plain :
    (y m d : ℕ) (rest : Text) → month_text (dated y m d rest) ≡ some (four y ++ two m [])
unfolding month_text four
month_text_plain y m d rest = ground arith

year_text_plain : (y m d : ℕ) (rest : Text) → substring (dated y m d rest) 0 4 ≡ some (four y)
unfolding substring four
year_text_plain y m d rest = ground arith

length_plain : (y m d : ℕ) (rest : Text) → ltb (length (dated y m d rest)) 10 ≡ false
unfolding four
length_plain y m d rest = ground arith

format_append :
    (d : Date) (y : ℕ) (rest : Text)
    → IsPlain d y
    → format_date d ++ rest ≡ dated y d.month d.day rest
unfolding four
format_append d y rest h = rw (format_plain d y h)

atoi_year : (y : ℕ) → y < 10000 → atoi (four y) ≡ some (pos y)
unfolding four
atoi_year y h =
    parse_digits (b'0' + y / 1000) _ y (omega arith) (omega arith)
      (scan_four y [] h ∙ scan_end (2 ^ 64) y) (omega arith)

module _ (local : ℤ → Date) (t : ℤ) (y : ℕ) (plain : IsPlain (local t) y) where
  day_of_time_plain :
      day_of_time local t ≡ some (pos (y * 10000 + (local t).month * 100 + (local t).day), none)
  unfolding day_of_time
  day_of_time_plain =
      let d = local t in
      ground (
        arith,
        format_plain d y plain,
        day_text_plain y d.month d.day [],
        atoi_day y d.month d.day plain.year_below plain.month_below plain.day_below,
      )

  month_of_time_plain : month_of_time local t ≡ some (pos (y * 100 + (local t).month), none)
  unfolding month_of_time
  month_of_time_plain =
      let d = local t in
      ground (
        arith,
        format_plain d y plain,
        month_text_plain y d.month d.day [],
        atoi_month y d.month plain.year_below plain.month_below,
      )

  -- For a Unix time as an int whose local date has a year below 10000, and a month and a day of
  -- two digits, the day shard is the decimal number YYYYMMDD, the month shard YYYYMM, and the
  -- year shard the year.
  pub find_of_time :
      (day_find local (int t ∷ [])
        ≡ some (pos (y * 10000 + (local t).month * 100 + (local t).day), none))
      × (month_find local (int t ∷ []) ≡ some (pos (y * 100 + (local t).month), none))
      × (year_find local (int t ∷ []) ≡ some (pos y, none))
  unfolding day_find month_find year_find
  find_of_time = (day_of_time_plain, month_of_time_plain, ap (λ x. some (x, none)) plain.positive)

  -- For a Unix time whose local date has a year below 10000, and a month and a day of two
  -- digits, the date as a text, whatever follows it, belongs to the same day, month and year
  -- shard as the time.
  pub find_of_text :
      (rest : Text)
      → (day_find local (string (format_date (local t) ++ rest) ∷ []) ≡ day_find local (int t ∷ []))
        × (month_find local (string (format_date (local t) ++ rest) ∷ [])
            ≡ month_find local (int t ∷ []))
        × (year_find local (string (format_date (local t) ++ rest) ∷ [])
            ≡ year_find local (int t ∷ []))
  unfolding day_find month_find year_find
  find_of_text rest =
      let d = local t in
      let text = format_append d y rest plain in
      let long = length_plain y d.month d.day rest in
      (
        ground (
          arith,
          text,
          long,
          day_text_plain y d.month d.day rest,
          atoi_day y d.month d.day plain.year_below plain.month_below plain.day_below,
          day_of_time_plain,
        ),
        ground (
          arith,
          text,
          long,
          month_text_plain y d.month d.day rest,
          atoi_month y d.month plain.year_below plain.month_below,
          month_of_time_plain,
        ),
        ground (
          arith,
          text,
          year_text_plain y d.month d.day rest,
          atoi_year y plain.year_below,
          plain.positive,
        ),
      )

-- A text of fewer than four bytes panics in the year shard. The month shard and the day shard
-- report an invalid date for it.
short_text :
    (local : ℤ → Date) (s : Text)
    → length s < 4
    → (year_find local (string s ∷ []) ≡ none)
      × (month_find local (string s ∷ []) ≡ some (pos 0, some invalid_date))
      × (day_find local (string s ∷ []) ≡ some (pos 0, some invalid_date))
unfolding day_find month_find year_find substring
short_text local s h = (ground arith, ground arith, ground arith)
