-- ===== src/Log/Zap/Written.antt =====
-- What the lines of the nsq library become, and when a logger panics.
use j7f.Base.{
  ℕ, ◌≡◌, ◌↔◌, ◌<◌, Bool, ◌||◌, List, Option, none, some, Text, codes, same_text, arith, ltb,
  length, take, if◌then◌else◌,
}
use j7f.Log.Zap.{output, Line}

-- Whether a line is of one of the four kinds.
abbrev pub is_tagged : Text → Bool
is_tagged s =
    same_text (take 3 s) (codes "INF")
    || same_text (take 3 s) (codes "WRN")
    || same_text (take 3 s) (codes "ERR")
    || same_text (take 3 s) (codes "DBG")

abbrev lines_in : Option (List Line) → ℕ
lines_in none = 0
lines_in (some lines) = length lines

-- `Output` panics exactly for less than three bytes, and writes one line for a text of the four kinds, none
-- for another.
output_lem :
    (s : Text)
    → ((output s ≡ none) ↔ (length s < 3))
      × (lines_in (output s) ≡ (if ltb (length s) 3 then 0 else if is_tagged s then 1 else 0))
unfolding output
output_lem s = ((λ h. ground arith, λ h. ground arith), ground arith)
