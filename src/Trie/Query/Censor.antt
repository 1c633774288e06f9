-- ===== src/Trie/Query/Censor.antt =====
-- What `Query` does to a text, as a relation: the text is cut into runes that are kept, words of the
-- trie that are overwritten, and words that the white lists let pass.
use mathlib.Core.Option
use j7f.Base.{
  Text, ℕ, suc, ◌+◌, ◌-◌, ◌<◌, ◌≡◌, refl, sym, ap, ◌∙◌, inl, inr, Bool, true, false, List, [], ◌∷◌,
  ◌++◌, append_assoc, Option, none, some, arith, length, take, drop, replicate, length-append,
  length-take, take-append-drop, drop-append, set-append, Option-cases,
}
use j7f.Trie.{Node, node, load, contains}
use j7f.Trie.Query.{Answer, match_at, star, slice, asterisks, in_white_list, scan}
use j7f.Trie.Query.Walk.{first_match, walk-shift, walk_sound}

pub data Censored (n : Node) (check : Bool) : Text → List Text → Text → Type 0 where
  done : Censored n check [] [] []
  keep :
      {c : ℕ} {s o : Text} {f : List Text}
      → first_match n (c ∷ s) ≡ none
      → Censored n check s f o
      → Censored n check (c ∷ s) f (c ∷ o)
  mask :
      {s o : Text} {f : List Text} (r : ℕ)
      → first_match n s ≡ some r
      → Censored n check (drop (suc r) s) f o
      → Censored n check s (take (suc r) s ∷ f) (replicate (suc r) star ++ o)
  pass :
      {s o : Text} {f : List Text} (r : ℕ)
      → check ≡ true
      → first_match n s ≡ some r
      → Censored n check (drop (suc r) s) f o
      → Censored n check s f (take (suc r) s ++ o)

-- A match has two runes at least, lies within the text, and is a word of the trie.
pub first_match_sound :
    (s : Text) (n : Node) (r : ℕ)
    → first_match n s ≡ some r
    → (0 < r) × (r < length s) × (contains (take (suc r) s) n ≡ true)
unfolding match_at contains
first_match_sound [] n r h = cc
first_match_sound (c ∷ s) (node cs e) r h = elim (Option-cases (load c cs)) [
  | inl q ↦ cc
  | inr (m, q) ↦ elim (walk_sound s m 1 0 r (ground arith)) [
    | inl (x, y) ↦ absurd (omega arith)
    | inr (d, x, y, z) ↦
        let e : r ≡ suc d = omega arith in rw e (omega arith, omega arith, ground arith)
  ]
]

match_at_shift :
    (i : ℕ) (s : Text) (n : Node) → match_at n i s ≡ Option.map (λ r. i + r) (first_match n s)
unfolding match_at
match_at_shift i [] n = refl
match_at_shift i (c ∷ s) (node cs e) = elim (Option-cases (load c cs)) [
  | inl q ↦ rw (q, match_at) refl
  | inr (m, q) ↦ rw (q, match_at) (walk-shift s m i 1 0 (omega arith))
]

asterisks_lem :
    (mid pre post : Text) (k : ℕ)
    → k ≡ length pre
    → asterisks (length mid) k (pre ++ (mid ++ post)) ≡ pre ++ (replicate (length mid) star ++ post)
unfolding asterisks
asterisks_lem [] pre post k h = refl
asterisks_lem (x ∷ mid) pre post k h =
    let ih =
      asterisks_lem mid (pre ++ star ∷ []) post (k + 1)
        (omega (arith, length-append pre (star ∷ []))) in
    rw (set-append k pre (mid ++ post) x star h, asterisks)
      (ground (
        arith,
        ih,
        append_assoc pre (star ∷ []) (mid ++ post),
        append_assoc pre (star ∷ []) (replicate (length mid) star ++ post),
      ))

pub matched_length : (r : ℕ) (s : Text) → r < length s → length (take (suc r) s) ≡ suc r
matched_length r s h = omega (arith, length-take (suc r) s)

-- The match as the source slices and overwrites it.
overwrite :
    (pre s : Text) (i r : ℕ)
    → i ≡ length pre
    → r < length s
    → asterisks (i + r + 1 - i) i (pre ++ s) ≡ (pre ++ replicate (suc r) star) ++ drop (suc r) s
overwrite pre s i r hi hr =
    let mid = take (suc r) s in
    let post = drop (suc r) s in
    let size : i + r + 1 - i ≡ length mid = omega (arith, matched_length r s hr) in
    let whole : s ≡ mid ++ post = sym (take-append-drop (suc r) s) in
    rw (size) (
      ap (λ (x : Text). asterisks (length mid) i (pre ++ x)) whole
      ∙ asterisks_lem mid pre post i hi
      ∙ rw (matched_length r s hr) (sym (append_assoc pre (replicate (suc r) star) post)))

slice_lem :
    (pre s : Text) (i r : ℕ) → i ≡ length pre → slice (pre ++ s) i (i + r + 1) ≡ take (suc r) s
slice_lem pre s i r hi =
    let size : i + r + 1 - i ≡ suc r = omega arith in rw (drop-append i pre s hi, size) refl

module _ (n : Node) (check : Bool) (prefix suffix : Text → Option Answer) where
  module _ (fuel i : ℕ) (pre : Text) (found : List Text) (at_i : i ≡ length pre) where
    pub scan_keep :
        (c : ℕ) (s : Text)
        → first_match n (c ∷ s) ≡ none
        → scan n check prefix suffix (suc fuel) i (pre ++ c ∷ s) found
          ≡ scan n check prefix suffix fuel (i + 1) ((pre ++ c ∷ []) ++ s) found
    unfolding scan
    scan_keep c s e = ground (
      arith,
      length-append pre (c ∷ s),
      drop-append i pre (c ∷ s) at_i,
      match_at_shift i (c ∷ s) n,
      append_assoc pre (c ∷ []) s,
    )

    pub scan_pass :
        (c : ℕ) (s : Text) (r : ℕ)
        → first_match n (c ∷ s) ≡ some r
        → in_white_list check prefix suffix (pre ++ c ∷ s) i (i + r) ≡ some true
        → scan n check prefix suffix (suc fuel) i (pre ++ c ∷ s) found
          ≡ scan n check prefix suffix fuel
              (i + r + 1)
              ((pre ++ take (suc r) (c ∷ s)) ++ drop (suc r) (c ∷ s))
              found
    unfolding scan
    scan_pass c s r e w = ground (
      arith,
      length-append pre (c ∷ s),
      drop-append i pre (c ∷ s) at_i,
      match_at_shift i (c ∷ s) n,
      append_assoc pre (take (suc r) (c ∷ s)) (drop (suc r) (c ∷ s)),
      take-append-drop (suc r) (c ∷ s),
    )

    pub scan_mask :
        (c : ℕ) (s : Text) (r : ℕ)
        → first_match n (c ∷ s) ≡ some r
        → in_white_list check prefix suffix (pre ++ c ∷ s) i (i + r) ≡ some false
        → scan n check prefix suffix (suc fuel) i (pre ++ c ∷ s) found
          ≡ scan n check prefix suffix fuel
              (i + r + 1)
              ((pre ++ replicate (suc r) star) ++ drop (suc r) (c ∷ s))
              (found ++ take (suc r) (c ∷ s) ∷ [])
    unfolding scan
    scan_mask c s r e w = ground (
      arith,
      length-append pre (c ∷ s),
      drop-append i pre (c ∷ s) at_i,
      match_at_shift i (c ∷ s) n,
      overwrite pre (c ∷ s) i r at_i (first_match_sound (c ∷ s) n r e).1,
      slice_lem pre (c ∷ s) i r at_i,
    )

    pub scan_panic :
        (c : ℕ) (s : Text) (r : ℕ)
        → first_match n (c ∷ s) ≡ some r
        → in_white_list check prefix suffix (pre ++ c ∷ s) i (i + r) ≡ none
        → scan n check prefix suffix (suc fuel) i (pre ++ c ∷ s) found ≡ none
    unfolding scan
    scan_panic c s r e w = ground (
      arith,
      length-append pre (c ∷ s),
      drop-append i pre (c ∷ s) at_i,
      match_at_shift i (c ∷ s) n,
    )
