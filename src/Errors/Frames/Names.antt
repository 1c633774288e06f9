-- ===== src/Errors/Frames/Names.antt =====
-- `funcname`: the name of a function without its pkg's path.
use j7f.Base.{
  ℕ, ◌≡◌, refl, [], ◌∷◌, ◌++◌, some, Text, arith, ◌==◌, if◌then◌else◌, ap, subst, append_assoc,
}
use j7f.Strings.Laws.{IsWithout}
use j7f.Errors.Frames.{after_slash, after_dot, funcname, drop_slashes, path_base}

after_slash_none : (acc t : Text) → IsWithout b'/' t → after_slash acc t ≡ acc
unfolding after_slash
after_slash_none acc [] h = refl
after_slash_none acc (c ∷ t) h = ground (arith, after_slash_none acc t)

after_slash_last : (acc front t : Text) → IsWithout b'/' t → after_slash acc (front ++ b'/' ∷ t) ≡ t
unfolding after_slash
after_slash_last acc [] t h = after_slash_none t t h
after_slash_last acc (c ∷ front) t h =
    after_slash_last (if c == b'/' then front ++ b'/' ∷ t else acc) front t h

after_dot_first : (front t : Text) → IsWithout b'.' front → after_dot (front ++ b'.' ∷ t) ≡ some t
unfolding after_dot
after_dot_first [] t h = refl
after_dot_first (c ∷ front) t h = ground (arith, after_dot_first front t)

IsWithout-append : (c : ℕ) (x y : Text) → IsWithout c x → IsWithout c y → IsWithout c (x ++ y)
IsWithout-append c [] y h k = k
IsWithout-append c (d ∷ x) y h k = (h.0, IsWithout-append c x y h.1 k)

-- For a name made of a directory, a slash, a package, a dot and a function, with no slash in
-- the package and the function and no dot in the package, `funcname` is the function.
funcname_last :
    (dir pkg name : Text)
    → IsWithout b'/' pkg
    → IsWithout b'.' pkg
    → IsWithout b'/' name
    → funcname (dir ++ b'/' ∷ (pkg ++ b'.' ∷ name)) ≡ name
unfolding funcname
funcname_last dir pkg name h k l =
    let whole = dir ++ b'/' ∷ (pkg ++ b'.' ∷ name) in
    let base : after_slash whole whole ≡ pkg ++ b'.' ∷ name =
      after_slash_last whole dir (pkg ++ b'.' ∷ name)
        (IsWithout-append b'/' pkg (b'.' ∷ name) h (refl, l)) in
    ground (arith, base, after_dot_first pkg name k)

drop_slashes_none : (c : ℕ) (t : Text) → IsWithout b'/' (c ∷ t) → drop_slashes (c ∷ t) ≡ c ∷ t
unfolding drop_slashes
drop_slashes_none c [] h = ground arith
drop_slashes_none c (d ∷ t) h = ground (arith, drop_slashes_none d t)

drop_slashes_last :
    (front t : Text) (c : ℕ)
    → IsWithout b'/' (c ∷ t)
    → drop_slashes (front ++ c ∷ t) ≡ front ++ c ∷ t
unfolding drop_slashes
drop_slashes_last [] t c h = drop_slashes_none c t h
drop_slashes_last (x ∷ []) t c h = ground (arith, drop_slashes_none c t)
drop_slashes_last (x ∷ y ∷ front) t c h = ground (arith, drop_slashes_last (y ∷ front) t c)

-- `path.Base` of a name in a directory.
pub path_base_last :
    (dir name : Text) (c : ℕ)
    → IsWithout b'/' (c ∷ name)
    → path_base (b'/' ∷ (dir ++ b'/' ∷ c ∷ name)) ≡ c ∷ name
path_base_last dir name c h =
    let whole = b'/' ∷ (dir ++ b'/' ∷ c ∷ name) in
    let front = b'/' ∷ (dir ++ b'/' ∷ []) in
    let same : front ++ c ∷ name ≡ whole =
      ap (◌∷◌ b'/') (append_assoc dir (b'/' ∷ []) (c ∷ name)) in
    let dropped : drop_slashes whole ≡ whole =
      subst (λ t. drop_slashes t ≡ t) same (drop_slashes_last front name c h) in
    let base : after_slash whole whole ≡ c ∷ name =
      after_slash_last whole (b'/' ∷ dir) (c ∷ name) h in
    unfold path_base in ground (arith, dropped, base)
