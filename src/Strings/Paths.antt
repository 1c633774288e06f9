-- ===== src/Strings/Paths.antt =====
-- Go's `path`: `Clean` and `Dir`.
pub mod Elements
use j7f.Base.{
  ℕ, suc, Bool, true, false, ◌&&◌, ◌||◌, not, List, [], ◌∷◌, ◌++◌, Option, none, some, Text, codes,
  same_text, ◌==◌, if◌then◌else◌, take, drop,
}
use j7f.Base.Int.{ℤ, pos, negsuc}
use j7f.Strings.{last_index, split, join}

abbrev pub dot_dot : Text
dot_dot = codes ".."

-- The elements that are kept, the last one first.
pub pushed : Bool → List Text → Text → List Text
pushed rooted kept element =
    if same_text element [] || same_text element (codes ".")
    then kept
    else if not (same_text element dot_dot)
    then element ∷ kept
    else elim kept [
      | [] ↦ if rooted then [] else dot_dot ∷ []
      | last ∷ others ↦ if same_text last dot_dot then dot_dot ∷ last ∷ others else others
    ]

pub kept_elements : Bool → List Text → List Text → List Text
unfolding pushed
kept_elements rooted kept [] = kept
kept_elements rooted kept (element ∷ elements) =
    kept_elements rooted (pushed rooted kept element) elements

pub in_order : List Text → List Text → List Text
in_order [] ordered = ordered
in_order (t ∷ ts) ordered = in_order ts (t ∷ ordered)

abbrev pub is_rooted : Text → Bool
is_rooted [] = false
is_rooted (c ∷ t) = c == b'/'

pub or_dot : Text → Text
or_dot [] = codes "."
or_dot (c ∷ t) = c ∷ t

-- `path.Clean`.
unfoldable pub clean : Text → Text
unfolding kept_elements in_order or_dot split join
clean p =
    let rooted = is_rooted p in
    let elements = join b'/' (in_order (kept_elements rooted [] (split b'/' p)) []) in
    or_dot (if rooted then b'/' ∷ elements else elements)

-- `path.Dir`.
unfoldable pub dir : Text → Text
unfolding last_index clean
dir p = clean (elim (last_index b'/' p) [ pos i ↦ take (suc i) p | negsuc n ↦ [] ])
