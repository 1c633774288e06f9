-- ===== src/Strings/Paths/Elements.antt =====
-- The directory of a rooted path of two elements.
use j7f.Base.{
  ℕ, suc, ◌≡◌, refl, ap, ◌∙◌, true, false, List, [], ◌∷◌, ◌++◌, Text, codes, same_text, arith,
  length, take,
}
use j7f.Base.Int.{pos}
use j7f.Strings.{last_index, split}
use j7f.Strings.Laws.{IsWithout, last_index-append, split-append}
use j7f.Strings.Paths.{dot_dot, pushed, kept_elements, in_order, or_dot, clean, dir}

-- An element that `Clean` keeps.
abbrev pub IsElement : Text → Type 0
IsElement t =
    IsWithout b'/' t
    × (same_text t [] ≡ false)
    × (same_text t (codes ".") ≡ false)
    × (same_text t dot_dot ≡ false)

pushed_element : (t : Text) (kept : List Text) → IsElement t → pushed true kept t ≡ t ∷ kept
unfolding pushed
pushed_element t kept h = ground arith

kept_element : (t : Text) → IsElement t → kept_elements true [] ([] ∷ t ∷ [] ∷ []) ≡ t ∷ []
kept_element t h =
    let first : pushed true [] [] ≡ [] = unfold pushed in refl in
    let last : pushed true (t ∷ []) [] ≡ t ∷ [] = unfold pushed in refl in
    unfold kept_elements in ground (arith, first, last, pushed_element t [] h)

clean_element : (t : Text) → IsElement t → clean (b'/' ∷ (t ++ b'/' ∷ [])) ≡ b'/' ∷ t
clean_element t h =
    let parts : split b'/' (b'/' ∷ (t ++ b'/' ∷ [])) ≡ [] ∷ t ∷ [] ∷ [] =
      split-append b'/' [] (t ++ b'/' ∷ []) tt
      ∙ ap (◌∷◌ []) (split-append b'/' t [] h.0 ∙ ap (◌∷◌ t) (unfold split in refl)) in
    let kept : kept_elements true [] (split b'/' (b'/' ∷ (t ++ b'/' ∷ []))) ≡ t ∷ [] =
      ap (kept_elements true []) parts ∙ kept_element t h in
    let order : in_order (t ∷ []) [] ≡ t ∷ [] = unfold in_order in refl in
    unfold or_dot in unfold clean in ground (arith, kept, order)

take_through : (c : ℕ) (t rest : Text) → take (suc (length t)) (t ++ c ∷ rest) ≡ t ++ c ∷ []
take_through c [] rest = refl
take_through c (d ∷ t) rest = ap (◌∷◌ d) (take_through c t rest)

pub dir_element :
    (t name : Text) → IsElement t → IsWithout b'/' name → dir (b'/' ∷ (t ++ b'/' ∷ name)) ≡ b'/' ∷ t
dir_element t name h k =
    let front = b'/' ∷ t in
    let found : last_index b'/' (front ++ b'/' ∷ name) ≡ pos (length front) =
      last_index-append b'/' front name k in
    let taken : take (suc (length front)) (front ++ b'/' ∷ name) ≡ b'/' ∷ (t ++ b'/' ∷ []) =
      take_through b'/' front name in
    unfold dir in ground (arith, found, taken, clean_element t h)
