-- ===== src/Strings/Laws.antt =====
-- Searches and splits of a text at a character that is known to stand there.
use j7f.Base.{ℕ, ◌≡◌, refl, false, [], ◌∷◌, ◌++◌, Text, arith, ◌==◌, All, length}
use j7f.Base.Int.{pos, negsuc}
use j7f.Strings.{last_index, split}

abbrev pub IsWithout : ℕ → Text → Type 0
IsWithout c = All (λ x. (x == c) ≡ false)

pub last_index_none : (c : ℕ) (t : Text) → IsWithout c t → last_index c t ≡ negsuc 0
unfolding last_index
last_index_none c [] h = refl
last_index_none c (d ∷ t) h = ground (arith, last_index_none c t)

pub last_index-append :
    (c : ℕ) (front t : Text) → IsWithout c t → last_index c (front ++ c ∷ t) ≡ pos (length front)
unfolding last_index
last_index-append c [] t h = ground (arith, last_index_none c t)
last_index-append c (d ∷ front) t h = ground (arith, last_index-append c front t)

pub split_none : (c : ℕ) (t : Text) → IsWithout c t → split c t ≡ t ∷ []
unfolding split
split_none c [] h = refl
split_none c (d ∷ t) h = ground (arith, split_none c t)

pub split-append :
    (c : ℕ) (t rest : Text) → IsWithout c t → split c (t ++ c ∷ rest) ≡ t ∷ split c rest
unfolding split
split-append c [] rest h = ground arith
split-append c (d ∷ t) rest h = ground (arith, split-append c t rest)
