-- ===== src/Shard/Dates.antt =====
-- components/dao/shard/shard.go: the date shards. What the system's time zone makes of a Unix time is
-- the parameter `local`; the format and the reading of numbers are Go's.
pub mod Laws
use j7f.Base.{
  ℕ, ◌+◌, ◌-◌, ◌≤◌, List, [], ◌∷◌, ◌++◌, Option, none, some, Text, codes, ltb, leb, if◌then◌else◌,
  length, take, drop, replicate, ◌≡◌, refl,
}
use j7f.Base.Int.{ℤ, pos, negsuc, to_i64}
use j7f.Strconv.{format_uint, atoi}
use j7f.Shard.{
  Value, int, uint64, int64, string, bytes, slice, other, ShardError, key_not_exist, invalid_date,
  bad_number, Reply, ◌>>=◌,
}

pub record Date : Type 0 where
  pub year : ℤ
  pub month : ℕ
  pub day : ℕ

pad : ℕ → ℕ → Text
pad width n = let s = format_uint n in replicate (width - length s) b'0' ++ s

-- `Format("2006-01-02")`.
pub format_date : Date → Text
unfolding pad
format_date d =
    elim d.year [ pos y ↦ pad 4 y | negsuc y ↦ b'-' ∷ pad 4 (y + 1) ]
    ++ b'-' ∷ (pad 2 d.month ++ b'-' ∷ pad 2 d.day)

-- `s[i:j]`, which panics out of range.
pub substring : Text → ℕ → ℕ → Option Text
substring s i j = if leb j (length s) then some (take (j - i) (drop i s)) else none

pub month_text : Text → Option Text
unfolding substring
month_text s = do y ← substring s 0 4; m ← substring s 5 7; some (y ++ m)

pub day_text : Text → Option Text
unfolding substring
day_text s = do y ← substring s 0 4; m ← substring s 5 7; d ← substring s 8 10; some (y ++ (m ++ d))

-- `Atoi`, with the error to report.
abbrev pub number_or : ShardError → Text → Reply ℤ
number_or e s = elim (atoi s) [ none ↦ (pos 0, some e) | some v ↦ (v, none) ]

module _ (local : ℤ → Date) where
  -- `DateYearShard.FindForKey`.
  year_key : Value → Option (Reply ℤ)
  year_key (int v) = some ((local v).year, none)
  year_key (uint64 v) = some ((local (to_i64 v)).year, none)
  year_key (int64 v) = some ((local v).year, none)
  year_key (string s) = do y ← substring s 0 4; some (number_or key_not_exist y)
  year_key (bytes s) = some (pos 0, some key_not_exist)
  year_key (slice n) = some (pos 0, some key_not_exist)
  year_key other = some (pos 0, some key_not_exist)

  pub year_find : List Value → Option (Reply ℤ)
  unfolding year_key
  year_find [] = none
  year_find (k ∷ ks) = year_key k

  -- `DateMonthShard.FindForKey`.
  month_of_time : ℤ → Option (Reply ℤ)
  month_of_time t = do s ← month_text (format_date (local t)); some (number_or bad_number s)

  month_key : Value → Option (Reply ℤ)
  unfolding month_of_time
  month_key (int v) = month_of_time v
  month_key (uint64 v) = month_of_time (to_i64 v)
  month_key (int64 v) = month_of_time v
  month_key (string s) =
      if ltb (length s) 10
      then some (pos 0, some invalid_date)
      else (do t ← month_text s; some (number_or invalid_date t))
  month_key (bytes s) = some (pos 0, some key_not_exist)
  month_key (slice n) = some (pos 0, some key_not_exist)
  month_key other = some (pos 0, some key_not_exist)

  pub month_find : List Value → Option (Reply ℤ)
  unfolding month_key
  month_find [] = none
  month_find (k ∷ ks) = month_key k

  -- `DateDayShard.FindForKey`.
  day_of_time : ℤ → Option (Reply ℤ)
  day_of_time t = do s ← day_text (format_date (local t)); some (number_or bad_number s)

  day_key : Value → Option (Reply ℤ)
  unfolding day_of_time
  day_key (int v) = day_of_time v
  day_key (uint64 v) = day_of_time (to_i64 v)
  day_key (int64 v) = day_of_time v
  day_key (string s) =
      if ltb (length s) 10
      then some (pos 0, some invalid_date)
      else (do t ← day_text s; some (number_or invalid_date t))
  day_key (bytes s) = some (pos 0, some key_not_exist)
  day_key (slice n) = some (pos 0, some key_not_exist)
  day_key other = some (pos 0, some key_not_exist)

  pub day_find : List Value → Option (Reply ℤ)
  unfolding day_key
  day_find [] = none
  day_find (k ∷ ks) = day_key k
