-- ===== src/Strings.antt =====
-- What the code calls of Go's `strings`, `bytes` and `path`, over texts.
pub mod Laws
pub mod Paths
use j7f.Base.{
  ℕ, suc, ◌+◌, ◌≤◌, ◌<◌, Bool, true, false, ◌&&◌, ◌||◌, not, List, [], ◌∷◌, ◌++◌, Option, none,
  some, Text, ltb, leb, ◌==◌, if◌then◌else◌, drop, same_text, same_text_iff,
}
use j7f.Base.Int.{ℤ, pos, negsuc}

-- `LastIndex` and `Index` of one character, -1 where it is not there.
pub after_index : ℤ → ℤ
after_index (pos i) = pos (suc i)
after_index (negsuc n) = negsuc n

unfoldable pub index : ℕ → Text → ℤ
unfolding after_index
index c [] = negsuc 0
index c (d ∷ t) = let rest = after_index (index c t) in if d == c then pos 0 else rest

pub last_index_step : Bool → ℤ → ℤ
last_index_step here (pos i) = pos (suc i)
last_index_step true (negsuc n) = pos 0
last_index_step false (negsuc n) = negsuc 0

unfoldable pub last_index : ℕ → Text → ℤ
unfolding last_index_step
last_index c [] = negsuc 0
last_index c (d ∷ t) = last_index_step (d == c) (last_index c t)

-- `TrimLeft` of one character.
unfoldable pub trim_left : ℕ → Text → Text
trim_left c [] = []
trim_left c (d ∷ t) = let rest = trim_left c t in if d == c then rest else d ∷ t

-- `HasPrefix`, `Contains` and `TrimSuffix`.
unfoldable pub has_prefix : Text → Text → Bool
has_prefix [] t = true
has_prefix (p ∷ ps) [] = false
has_prefix (p ∷ ps) (c ∷ t) = p == c && has_prefix ps t

unfoldable pub contains_text : Text → Text → Bool
unfolding has_prefix
contains_text sub [] = has_prefix sub []
contains_text sub (c ∷ t) = has_prefix sub (c ∷ t) || contains_text sub t

unfoldable pub trim_suffix : Text → Text → Text
trim_suffix suffix [] = []
trim_suffix suffix (c ∷ t) =
    let rest = c ∷ trim_suffix suffix t in if same_text (c ∷ t) suffix then [] else rest

-- `TrimSpace`, over code points.
pub is_space : ℕ → Bool
is_space c =
    (leb 9 c && leb c 13)
    || c == 32
    || c == 0x85
    || c == 0xA0
    || c == 0x1680
    || (leb 0x2000 c && leb c 0x200A)
    || c == 0x2028
    || c == 0x2029
    || c == 0x202F
    || c == 0x205F
    || c == 0x3000

pub trim_spaces_left : Text → Text
unfolding is_space
trim_spaces_left [] = []
trim_spaces_left (c ∷ t) = let rest = trim_spaces_left t in if is_space c then rest else c ∷ t

pub trim_spaces_right : Text → Text
unfolding is_space
trim_spaces_right [] = []
trim_spaces_right (c ∷ t) = elim (trim_spaces_right t) [
  | [] ↦ if is_space c then [] else c ∷ []
  | d ∷ r ↦ c ∷ d ∷ r
]

unfoldable pub trim_space : Text → Text
unfolding trim_spaces_left trim_spaces_right
trim_space t = trim_spaces_right (trim_spaces_left t)

-- `Split` at one character.
pub onto_first : ℕ → List Text → List Text
onto_first c [] = (c ∷ []) ∷ []
onto_first c (t ∷ ts) = (c ∷ t) ∷ ts

unfoldable pub split : ℕ → Text → List Text
unfolding onto_first
split sep [] = [] ∷ []
split sep (c ∷ t) = let rest = split sep t in if c == sep then [] ∷ rest else onto_first c rest

-- `Join` with one character.
unfoldable pub join : ℕ → List Text → Text
join sep [] = []
join sep (t ∷ []) = t
join sep (t ∷ u ∷ us) = t ++ sep ∷ join sep (u ∷ us)
