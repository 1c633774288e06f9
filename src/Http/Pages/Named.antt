-- ===== src/Http/Pages/Named.antt =====
-- Which page is answered.
use j7f.Base.{
  ℕ, zero, suc, ◌≡◌, refl, sym, ap, ◌∙◌, true, false, [], ◌∷◌, ◌++◌, Text, codes, same_text,
  same_text_refl, same_text_iff, arith, replicate, length, length-append, append_assoc, Bool-cases,
  inl, inr,
}
use j7f.Base.Int.{ℤ, pos, ltb_ℤ}
use j7f.Base.Maps.{Map, find}
use j7f.Strings.{trim_left, has_prefix, contains_text, trim_suffix}
use j7f.Http.Pages.{Response, html, Request, shtml, page_name, count_of, no_method, no_route}

-- Whatever is counted, `NoRoute` answers as `NoMethod` does.
no_route-no_method :
    {Value : Type 0} (urimap : Map ℤ) (r : Request)
    → no_route {Value = Value} urimap r ≡ no_method r
no_route-no_method urimap r =
    elim (Bool-cases (ltb_ℤ (count_of (find (page_name r.request_uri) urimap)) (pos 0))) [
      | inl e ↦ unfold no_route in unfold no_method in ground arith
      | inr e ↦ unfold no_route in unfold no_method in ground arith
    ]

has_prefix_refl : (t : Text) → has_prefix t t ≡ true
unfolding has_prefix
has_prefix_refl [] = refl
has_prefix_refl (c ∷ t) = ground (arith, has_prefix_refl t)

contains_text_end : (t sub : Text) → contains_text sub (t ++ sub) ≡ true
unfolding contains_text
contains_text_end [] [] = refl
contains_text_end [] (c ∷ sub) = ground (arith, has_prefix_refl (c ∷ sub))
contains_text_end (c ∷ t) sub = ground (arith, contains_text_end t sub)

longer : (c : ℕ) (t suffix : Text) → same_text (c ∷ (t ++ suffix)) suffix ≡ false
longer c t suffix = elim (Bool-cases (same_text (c ∷ (t ++ suffix)) suffix)) [
  | inr e ↦ e
  | inl e ↦
      let same : length (c ∷ (t ++ suffix)) ≡ length suffix =
        ap length ((same_text_iff (c ∷ (t ++ suffix)) suffix).0 e) in
      absurd (omega (arith, same, length-append t suffix))
]

trim_suffix-append : (t suffix : Text) → trim_suffix suffix (t ++ suffix) ≡ t
unfolding trim_suffix
trim_suffix-append [] [] = refl
trim_suffix-append [] (c ∷ suffix) = ground (arith, same_text_refl (c ∷ suffix))
trim_suffix-append (c ∷ t) suffix = ground (arith, longer c t suffix, trim_suffix-append t suffix)

trim_left-replicate : (n c : ℕ) (t : Text) → trim_left c (replicate n c ++ t) ≡ trim_left c t
unfolding trim_left
trim_left-replicate zero c t = refl
trim_left-replicate (suc n) c t = ground (arith, trim_left-replicate n c t)

abbrev pub StartsElsewhere : Text → Type 0
StartsElsewhere t = trim_left b'/' t ≡ t

-- For any slashes, then a name and `.shtml` that together do not begin with a slash, `NoRoute`
-- answers the page of the name with `.html`, whichever header comes and whatever is counted, a
-- negative count included, for which the comments speak of an error page.
pub no_route_page :
    {Value : Type 0} (urimap : Map ℤ) (n : ℕ) (name header : Text)
    → StartsElsewhere (name ++ shtml)
    → no_route {Value = Value} urimap
        (record { request_uri = replicate n b'/' ++ (name ++ shtml); x_requested_with = header })
      ≡ html 200 (name ++ codes ".html")
no_route_page {Value} urimap n name header h =
    let uri = replicate n b'/' ++ (name ++ shtml) in
    let r : Request = record { request_uri = uri; x_requested_with = header } in
    let named : page_name uri ≡ name =
      ap (trim_suffix shtml) (trim_left-replicate n b'/' (name ++ shtml) ∙ h)
      ∙ trim_suffix-append name shtml in
    let page : contains_text shtml uri ≡ true =
      ap (contains_text shtml) (sym (append_assoc (replicate n b'/') name shtml))
      ∙ contains_text_end (replicate n b'/' ++ name) shtml in
    let page_of : Text → Response Value = λ t. html 200 (t ++ codes ".html") in
    let answered : no_method {Value = Value} r ≡ page_of (page_name uri) =
      unfold no_method in rw page in
    no_route-no_method urimap r ∙ (answered ∙ ap page_of named)
