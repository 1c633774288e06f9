-- ===== src/Trie/Query/Words.antt =====
-- Which words `Query` finds, and which it misses.
use j7f.Base.{
  Text, ℕ, zero, suc, ◌<◌, ◌≤◌, ◌≡◌, refl, subst, inl, inr, Bool, true, false, List, ◌∷◌, none,
  some, arith, length, take, replicate, get_elem?, All, length-replicate, take-append, Option-cases,
}
use j7f.Trie.{Node, node, Trie, root, load, contains}
use j7f.Trie.Query.{Answer, star, match_at, query}
use j7f.Trie.Query.Walk.{first_match, is_path, walk_longest, walk-none, walk_off_end}
use j7f.Trie.Query.Censor.{Censored, done, keep, mask, pass, first_match_sound, matched_length}
use j7f.Trie.Query.Correct.{checks, query-IsAnswer}

-- A word of the trie of two runes or more.
abbrev pub IsLongWord : Node → Text → Type 0
IsLongWord n w = (contains w n ≡ true) × (1 < length w)

found-IsLongWord :
    {n : Node} {check : Bool} {s o : Text} {f : List Text}
    → Censored n check s f o
    → All (IsLongWord n) f
found-IsLongWord done = tt
found-IsLongWord (keep e z) = found-IsLongWord z
found-IsLongWord {n} {s = s} (mask r e z) =
    let (p0, p1, p2) = first_match_sound s n r e in
    ((p2, omega (arith, matched_length r s p1)), found-IsLongWord z)
found-IsLongWord (pass r w e z) = found-IsLongWord z

-- Every text that `Query` reports is a word of the trie, and has two runes at least.
pub query-found :
    (t : Trie) (s : Text) (r : Answer) → query t s ≡ some r → All (IsLongWord (root t)) r.found
query-found t s r h = found-IsLongWord (query-IsAnswer t s r h).censored

first_match_finds :
    (c : ℕ) (s : Text) (n : Node) (d : ℕ)
    → 0 < d
    → d < length (c ∷ s)
    → contains (take (suc d) (c ∷ s)) n ≡ true
    → is_path (c ∷ s) n ≡ false
    → (e : ℕ) × (first_match n (c ∷ s) ≡ some e) × (d ≤ e)
unfolding match_at contains
first_match_finds c s (node cs e) zero h k w p = absurd (omega arith)
first_match_finds c s (node cs e) (suc d) h k w p = elim (Option-cases (load c cs)) [
  | inl q ↦ ground arith
  | inr (m, q) ↦ elim (Option-cases (first_match (node cs e) (c ∷ s))) [
    | inl x ↦ elim (walk-none s m 1 0 (omega arith) (ground arith)) [
      | inl y ↦ ground arith
      | inr (y, z) ↦ ground (arith, z d (omega arith))
    ]
    | inr (r, x) ↦ (r, x, ground (arith, walk_longest s m 1 0 r d))
  ]
]

masked :
    {n : Node} {s o : Text} {f : List Text}
    → Censored n false s f o
    → (e : ℕ) → first_match n s ≡ some e
    → take (suc e) o ≡ replicate (suc e) star
unfolding match_at
masked done e h = cc
masked (keep k z) e h = cc (k, h)
masked {n} {s = s} (mask {o = o} r k z) e h =
    let p : r ≡ e = ground arith in
    rw p (
      take-append (suc e) (replicate (suc e) star) o (omega (arith, length-replicate (suc e) star)))
masked (pass r w k z) e h = cc

-- Without a check of the white lists: if the first `d + 1` runes of a text, two at least, are a
-- word of the trie, and the whole text is not a path in the trie, then what `Query` returns
-- begins with `d + 1` asterisks or more.
pub query_masks_word :
    (c : ℕ) (s : Text) (t : Trie) (d : ℕ) (r : Answer)
    → checks t ≡ false
    → 0 < d
    → d < length (c ∷ s)
    → contains (take (suc d) (c ∷ s)) (root t) ≡ true
    → is_path (c ∷ s) (root t) ≡ false
    → query t (c ∷ s) ≡ some r
    → (e : ℕ) × (d ≤ e) × (take (suc e) r.text ≡ replicate (suc e) star)
query_masks_word c s t d r g h k w p q =
    let (e, x, y) = first_match_finds c s (root t) d h k w p in
    let z = (query-IsAnswer t (c ∷ s) r q).censored in
    (e, y, masked (subst (λ b. Censored (root t) b (c ∷ s) r.found r.text) g z) e x)

keeps_first :
    {n : Node} {check : Bool} {s o : Text} {f : List Text}
    → Censored n check s f o
    → first_match n s ≡ none
    → get_elem? o 0 ≡ get_elem? s 0
keeps_first done h = refl
keeps_first (keep k z) h = refl
keeps_first (mask r k z) h = cc (k, h)
keeps_first (pass r w k z) h = cc (k, h)

off_end :
    (c : ℕ) (s : Text) (n : Node)
    → is_path (c ∷ s) n ≡ true
    → contains (c ∷ s) n ≡ false
    → first_match n (c ∷ s) ≡ none
unfolding match_at contains
off_end c s (node cs e) p h = elim (Option-cases (load c cs)) [
  | inl q ↦ ground arith
  | inr (m, q) ↦ ground (arith, walk_off_end s m 1 0)
]

-- For a text that is a path in the trie without being a word of it, what `Query` returns begins
-- with the text's first rune.
query_misses_tail :
    (c : ℕ) (s : Text) (t : Trie) (r : Answer)
    → is_path (c ∷ s) (root t) ≡ true
    → contains (c ∷ s) (root t) ≡ false
    → query t (c ∷ s) ≡ some r
    → get_elem? r.text 0 ≡ some c
query_misses_tail c s t r p h q =
    keeps_first (query-IsAnswer t (c ∷ s) r q).censored (off_end c s (root t) p h)
