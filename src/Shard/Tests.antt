-- ===== src/Shard/Tests.antt =====
-- The shards on small inputs.
use j7f.Base.{
  ◌+◌, ◌*◌, ◌/◌, ◌≡◌, refl, List, [], ◌∷◌, ◌++◌, none, some, codes, arith, ltb, if◌then◌else◌,
}
use j7f.Base.Int.{ℤ, pos, negsuc}
use j7f.Shard.{int, string, NumKeyRange, key_out_of_range, parse_num_sharding, range_find}
use j7f.Shard.Range.{range_find_quotient}
use j7f.Shard.Dates.{Date, format_date, day_find, month_find, year_find}
use j7f.Shard.Dates.Laws.{IsPlain, find_of_time, find_of_text}

range_find_quotient_example :
    (rs : List NumKeyRange) × (parse_num_sharding (pos 4) (pos 100) ≡ some rs)
    × (range_find rs (int (pos 250) ∷ [])
        ≡ some (
            if ltb 250 (4 * 100)
            then (pos (250 / 100), none)
            else (negsuc 0, some key_out_of_range)))
range_find_quotient_example =
    range_find_quotient 4 100 250 (omega arith) (omega arith) (omega arith)

-- A clock that always shows the fifth of March 2021.
abbrev a_day : Date
a_day = record { year = pos 2021; month = 3; day = 5 }

abbrev a_clock : ℤ → Date
a_clock t = a_day

a_day-IsPlain : IsPlain a_day 2021
a_day-IsPlain = record {
  positive = refl;
  year_below = omega arith;
  month_below = omega arith;
  day_below = omega arith;
}

find_of_time_example :
    (day_find a_clock (int (pos 7) ∷ []) ≡ some (pos (2021 * 10000 + 3 * 100 + 5), none))
    × (month_find a_clock (int (pos 7) ∷ []) ≡ some (pos (2021 * 100 + 3), none))
    × (year_find a_clock (int (pos 7) ∷ []) ≡ some (pos 2021, none))
find_of_time_example = find_of_time a_clock (pos 7) 2021 a_day-IsPlain

find_of_text_example :
    (day_find a_clock (string (format_date a_day ++ codes " 10:00") ∷ [])
      ≡ day_find a_clock (int (pos 7) ∷ []))
    × (month_find a_clock (string (format_date a_day ++ codes " 10:00") ∷ [])
        ≡ month_find a_clock (int (pos 7) ∷ []))
    × (year_find a_clock (string (format_date a_day ++ codes " 10:00") ∷ [])
        ≡ year_find a_clock (int (pos 7) ∷ []))
find_of_text_example = find_of_text a_clock (pos 7) 2021 a_day-IsPlain (codes " 10:00")
