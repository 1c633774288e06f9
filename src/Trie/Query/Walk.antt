-- ===== src/Trie/Query/Walk.antt =====
-- The inner loop of `Query`: it finds the longest word that starts at a place, unless the text ends
-- within a longer one.
use mathlib.Core.Option
use j7f.Base.{
  Text, ℕ, zero, suc, ◌+◌, ◌<◌, ◌≡◌, refl, ◌⊎◌, inl, inr, Bool, true, false, ◌&&◌, [], ◌∷◌, Option,
  none, some, arith, ltb, if◌then◌else◌, length, take, Option-cases, Bool-cases,
}
use j7f.Trie.{Node, node, load, children, is_end, contains}
use j7f.Trie.Query.{walk, match_at, is_nil}

-- Where the loops of `Query` break off for a text, counted from its start.
abbrev pub first_match : Node → Text → Option ℕ
first_match n s = match_at n 0 s

abbrev shift : ℕ → ℕ → ℕ
shift k jj = if ltb 0 jj then k + jj else 0

shift_pos : (k jj : ℕ) → ltb 0 (shift k jj) ≡ ltb 0 jj
shift_pos k jj = ground arith

pub walk-shift :
    (s : Text) (n : Node) (k j jj : ℕ)
    → 0 < j
    → walk n (k + j) (shift k jj) s ≡ Option.map (λ r. k + r) (walk n j jj s)
unfolding walk
walk-shift [] n k j jj h = refl
walk-shift (c ∷ s) (node cs e) k j jj h = elim (Option-cases (load c cs)) [
  | inl q ↦ rw (q, walk) (ground arith)
  | inr (m, q) ↦
      let jj' = if is_end m then j else jj in
      let here : shift k jj' ≡ (if is_end m then k + j else shift k jj) = ground arith in
      let next : k + (j + 1) ≡ k + j + 1 = omega arith in
      let ih = rw (here, next) at (walk-shift s m k (j + 1) jj' (omega arith)) in
      rw (q, walk) (ground (arith, ih))
]

-- A match is the one carried along, or a word of the trie that begins the text.
pub walk_sound :
    (s : Text) (n : Node) (j jj r : ℕ)
    → walk n j jj s ≡ some r
    → ((r ≡ jj) × (0 < jj))
      ⊎ ((d : ℕ) × (r ≡ j + d) × (d < length s) × (contains (take (suc d) s) n ≡ true))
unfolding walk contains
walk_sound [] n j jj r h = cc
walk_sound (c ∷ s) (node cs e) j jj r h = elim (Option-cases (load c cs)) [
  | inl q ↦ inl (ground arith)
  | inr (node ds f, q) ↦ elim (Bool-cases (f && is_nil s)) [
    | inl p ↦ inr (0, ground arith, omega arith, ground arith)
    | inr p ↦ elim (walk_sound s (node ds f) (j + 1) (if f then j else jj) r (ground arith)) [
      | inl (x, y) ↦ elim (Bool-cases f) [
        | inl g ↦ inr (0, ground arith, omega arith, ground arith)
        | inr g ↦ inl (ground arith, ground arith)
      ]
      | inr (d, x, y, z) ↦ inr (suc d, omega arith, omega arith, ground arith)
    ]
  ]
]

length-nil : (s : Text) → is_nil s ≡ true → length s ≡ 0
length-nil [] h = refl
length-nil (c ∷ s) h = cc

-- No longer word begins the text.
pub walk_longest :
    (s : Text) (n : Node) (j jj r d : ℕ)
    → walk n j jj s ≡ some r
    → r < j + d
    → d < length s
    → contains (take (suc d) s) n ≡ false
unfolding walk contains
walk_longest [] n j jj r d h p q = cc
walk_longest (c ∷ s) (node cs e) j jj r zero h p q = elim (Option-cases (load c cs)) [
  | inl k ↦ ground arith
  | inr (node ds f, k) ↦ elim (Bool-cases f) [
    | inl x ↦ absurd (ground (arith, walk_sound s (node ds f) (j + 1) j r))
    | inr x ↦ ground arith
  ]
]
walk_longest (c ∷ s) (node cs e) j jj r (suc d) h p q = elim (Option-cases (load c cs)) [
  | inl k ↦ ground arith
  | inr (node ds f, k) ↦
      let jj' = if f then j else jj in
      ground (arith, length-nil s, walk_longest s (node ds f) (j + 1) jj' r d)
]

abbrev pub is_path : Text → Node → Bool
is_path [] n = true
is_path (c ∷ s) n = elim (load c (children n)) [ none ↦ false | some m ↦ is_path s m ]

-- Without a match no word of the trie begins the text, or the whole text leads into the trie.
pub walk-none :
    (s : Text) (n : Node) (j jj : ℕ)
    → 0 < j
    → walk n j jj s ≡ none
    → (is_path s n ≡ true)
      ⊎ ((jj ≡ 0) × ((d : ℕ) → d < length s → contains (take (suc d) s) n ≡ false))
unfolding walk contains
walk-none [] n j jj p h = inl refl
walk-none (c ∷ s) (node cs e) j jj p h = elim (Option-cases (load c cs)) [
  | inl q ↦ inr (ground arith, λ d k. ground arith)
  | inr (node ds f, q) ↦
      elim (walk-none s (node ds f) (j + 1) (if f then j else jj) (omega arith) (ground arith)) [
        | inl x ↦ inl (ground arith)
        | inr (x, y) ↦ inr (
          ground arith,
          elim [ zero ↦ λ k. ground arith | suc d ↦ λ k. ground (arith, y d (omega arith)) ],
        )
      ]
]

-- A text that leads into the trie and stops short of a word is no match, whatever words begin it.
pub walk_off_end :
    (s : Text) (n : Node) (j jj : ℕ)
    → is_path s n ≡ true
    → contains s n ≡ false
    → walk n j jj s ≡ none
unfolding walk contains
walk_off_end [] n j jj p h = refl
walk_off_end (c ∷ s) (node cs e) j jj p h = elim (Option-cases (load c cs)) [
  | inl q ↦ cc
  | inr (m, q) ↦ ground (arith, walk_off_end s m (j + 1) (if is_end m then j else jj))
]
