-- ===== src/Trie/Query/Correct.antt =====
-- `Query` against the relation of Censor: every result is a censored text, and every text has one.
use j7f.Base.{
  Text, ℕ, zero, suc, ◌+◌, ◌≤◌, ◌≡◌, refl, sym, ap, ◌∙◌, subst, inl, inr, Bool, true, false, not,
  List, [], ◌∷◌, ◌++◌, append_assoc, append-nil, Option, none, some, arith, length, take, drop,
  replicate, length-append, length-replicate, length-drop, Option-cases,
}
use j7f.Trie.{Node, Trie, trie, root}
use j7f.Trie.Query.{Answer, star, is_nil, in_white_list, scan, finish, query, query_ptr}
use j7f.Trie.Query.Walk.{first_match}
use j7f.Trie.Query.Censor.{
  Censored, done, keep, mask, pass, first_match_sound, matched_length, scan_keep, scan_pass,
  scan_mask, scan_panic,
}

abbrev pub checks : Trie → Bool
checks (trie n check p s) = check

pass_needs_check :
    (check : Bool) (prefix suffix : Text → Option Answer) (chars : Text) (i j : ℕ)
    → in_white_list check prefix suffix chars i j ≡ some true
    → check ≡ true
unfolding in_white_list
pass_needs_check true prefix suffix chars i j h = refl
pass_needs_check false prefix suffix chars i j h = cc

module _ (n : Node) (check : Bool) (prefix suffix : Text → Option Answer) where
  abbrev Reached : Text → Text → List Text → List Text × Text → Type 0
  Reached pre s found r =
      (f : List Text) × (o : Text) × (r.0 ≡ found ++ f) × (r.1 ≡ pre ++ o) × Censored n check s f o

  -- One round of the outer loop, for each of its outcomes.
  Reached-keep :
      (pre : Text) (c : ℕ) (s : Text) (found : List Text) (r : List Text × Text)
      → first_match n (c ∷ s) ≡ none
      → Reached (pre ++ c ∷ []) s found r
      → Reached pre (c ∷ s) found r
  Reached-keep pre c s found r e (f, o, x, y, z) =
      (f, c ∷ o, x, y ∙ append_assoc pre (c ∷ []) o, keep e z)

  Reached-pass :
      (pre s : Text) (d : ℕ) (found : List Text) (r : List Text × Text)
      → first_match n s ≡ some d
      → check ≡ true
      → Reached (pre ++ take (suc d) s) (drop (suc d) s) found r
      → Reached pre s found r
  Reached-pass pre s d found r e w (f, o, x, y, z) =
      (f, take (suc d) s ++ o, x, y ∙ append_assoc pre (take (suc d) s) o, pass d w e z)

  Reached-mask :
      (pre s : Text) (d : ℕ) (found : List Text) (r : List Text × Text)
      → first_match n s ≡ some d
      → Reached (pre ++ replicate (suc d) star) (drop (suc d) s) (found ++ take (suc d) s ∷ []) r
      → Reached pre s found r
  Reached-mask pre s d found r e (f, o, x, y, z) = (
    take (suc d) s ∷ f,
    replicate (suc d) star ++ o,
    x ∙ append_assoc found (take (suc d) s ∷ []) f,
    y ∙ append_assoc pre (replicate (suc d) star) o,
    mask d e z,
  )

  scan-Censored :
      (fuel i : ℕ) (pre s : Text) (found : List Text) (r : List Text × Text)
      → i ≡ length pre
      → length s ≤ fuel
      → scan n check prefix suffix fuel i (pre ++ s) found ≡ some r
      → Reached pre s found r
  unfolding scan
  scan-Censored zero i pre [] found (g, out) hi hs h =
      ([], [], ground (arith, append-nil found), ground (arith, append-nil pre), done)
  scan-Censored zero i pre (c ∷ s) found r hi hs h = absurd (omega arith)
  scan-Censored (suc fuel) i pre [] found (g, out) hi hs h = (
    [],
    [],
    ground (arith, append-nil found, append-nil pre),
    ground (arith, append-nil pre),
    done,
  )
  scan-Censored (suc fuel) i pre (c ∷ s) found r hi hs h =
      elim (Option-cases (first_match n (c ∷ s))) [
        | inl e ↦ Reached-keep pre c s found r e (
            scan-Censored fuel (i + 1) (pre ++ c ∷ []) s found r
              (omega (arith, length-append pre (c ∷ []))) (omega arith)
              (sym (scan_keep n check prefix suffix fuel i pre found hi c s e) ∙ h))
        | inr (d, e) ↦
            let size = matched_length d (c ∷ s) (first_match_sound (c ∷ s) n d e).1 in
            let rest = length-drop (suc d) (c ∷ s) in
            let white = in_white_list check prefix suffix (pre ++ c ∷ s) i (i + d) in
            elim (Option-cases white) [
              | inl w ↦ cc (h, scan_panic n check prefix suffix fuel i pre found hi c s d e w)
              | inr (true, w) ↦
                  Reached-pass pre (c ∷ s) d found r e
                    (pass_needs_check check prefix suffix (pre ++ c ∷ s) i (i + d) w)
                    (scan-Censored fuel (i + d + 1) (pre ++ take (suc d) (c ∷ s))
                      (drop (suc d) (c ∷ s)) found r
                      (omega (arith, length-append pre (take (suc d) (c ∷ s)))) (omega arith)
                      (sym (scan_pass n check prefix suffix fuel i pre found hi c s d e w) ∙ h))
              | inr (false, w) ↦
                  let stars = replicate (suc d) star in
                  Reached-mask pre (c ∷ s) d found r e (
                    scan-Censored fuel (i + d + 1) (pre ++ stars) (drop (suc d) (c ∷ s))
                      (found ++ take (suc d) (c ∷ s) ∷ []) r
                      (omega (arith, length-append pre stars, length-replicate (suc d) star))
                      (omega arith)
                      (sym (scan_mask n check prefix suffix fuel i pre found hi c s d e w) ∙ h))
            ]
      ]

-- A text as long, so that the white lists may look at its ends.
pub Censored-length :
    {n : Node} {check : Bool} {s o : Text} {f : List Text}
    → Censored n check s f o
    → length o ≡ length s
Censored-length done = refl
Censored-length (keep e z) = ap suc (Censored-length z)
Censored-length {n} {s = s} (mask {o = o} r e z) =
    let (p0, p1, p2) = first_match_sound s n r e in
    omega (
      arith,
      Censored-length z,
      length-drop (suc r) s,
      length-append (replicate (suc r) star) o,
      length-replicate (suc r) star,
    )
Censored-length {n} {s = s} (pass {o = o} r w e z) =
    let (p0, p1, p2) = first_match_sound s n r e in
    omega (
      arith,
      Censored-length z,
      length-drop (suc r) s,
      length-append (take (suc r) s) o,
      matched_length r s p1,
    )

-- What an answer promises.
pub record IsAnswer (n : Node) (check : Bool) (s : Text) (r : Answer) : Type 0 where
  pub censored : Censored n check s r.found r.text
  pub told : r.exist ≡ not (is_nil r.found)

answer_of :
    (n : Node) (check : Bool) (s : Text) (q : List Text × Text) (r : Answer)
    → (f : List Text) × (o : Text) × (q.0 ≡ [] ++ f) × (q.1 ≡ [] ++ o) × Censored n check s f o
    → finish q ≡ r
    → IsAnswer n check s r
unfolding finish
answer_of n check s (g, out) r (f, o, x, y, z) e =
    let z' : Censored n check s g out = rw (x, y) z in
    subst (IsAnswer n check s) e (record { censored = z'; told = refl })

-- Whatever `Query` returns for a text is that text cut, from its start, into runes at which no
-- match begins and which are kept, matches that are overwritten by as many asterisks and listed
-- in order, and, only if the white lists are checked, matches that are kept. `exist` says
-- whether the list is not empty.
pub query-IsAnswer :
    (t : Trie) (s : Text) (r : Answer) → query t s ≡ some r → IsAnswer (root t) (checks t) s r
unfolding query finish
query-IsAnswer (trie n check p w) [] r h =
    let q : record { exist = false; found = []; text = [] } ≡ r = ground arith in
    subst (IsAnswer n check []) q (record { censored = done; told = refl })
query-IsAnswer (trie n check p w) (c ∷ s) r h =
    elim (Option-cases (scan n check (query_ptr p) (query_ptr w) (length (c ∷ s)) 0 (c ∷ s) [])) [
      | inl e ↦ ground arith
      | inr (q, e) ↦
          answer_of n check (c ∷ s) q r
            (scan-Censored n check (query_ptr p) (query_ptr w) (length (c ∷ s)) 0 [] (c ∷ s) [] q
              refl (omega arith) e)
            (ground arith)
    ]
