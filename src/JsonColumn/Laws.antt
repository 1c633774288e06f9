-- ===== src/JsonColumn/Laws.antt =====
-- Round trips of a JSON column, and what is left of an old content.
use j7f.Base.{
  ◌≡◌, refl, sym, ap, ◌∙◌, ◌≢◌, true, [], ◌∷◌, ◌++◌, append-nil, none, some, Text, same_text_iff,
  codes, arith,
}
use j7f.JsonColumn.{
  Json, content, bytes, other, value, append_bytes, scan, marshal_json, unmarshal_json, equals,
}

content-append_bytes : (j : Json) (s : Text) → content (append_bytes j s) ≡ content j ++ s
unfolding append_bytes
content-append_bytes none [] = refl
content-append_bytes none (c ∷ s) = refl
content-append_bytes (some j) s = refl

value-scan : (j : Json) (s : Text) → value j ≡ some s → equals (scan none (bytes s)) j ≡ true
unfolding value scan equals
value-scan j s h =
    let e : content j ≡ s = ground arith in
    (same_text_iff (content (append_bytes none s)) (content j)).1
      (content-append_bytes none s ∙ sym e)

append_nothing : (j : Json) → append_bytes j [] ≡ j
unfolding append_bytes
append_nothing none = refl
append_nothing (some j) = ap some (append-nil j)

-- `Scan` of bytes appends them to the old content, as `UnmarshalJSON` does, and `Scan` of a
-- value of another type leaves it.
scan_appends :
    (j : Json) (s : Text)
    → (content (scan j (bytes s)) ≡ content j ++ s)
      × (unmarshal_json (some j) s ≡ some (scan j (bytes s)))
      × (scan j other ≡ j)
unfolding scan unmarshal_json
scan_appends j s = (content-append_bytes j s, refl, append_nothing j)

-- What `MarshalJSON` writes of a column, other than an empty one that is not nil,
-- `UnmarshalJSON` reads into a nil column, of which `MarshalJSON` writes the same.
marshal-unmarshal :
    (j : Json)
    → j ≢ some []
    → (m : Json) × (unmarshal_json (some none) (marshal_json j) ≡ some m)
      × (marshal_json m ≡ marshal_json j)
unfolding unmarshal_json marshal_json append_bytes
marshal-unmarshal none h = (some (codes "null"), refl, refl)
marshal-unmarshal (some []) h = absurd (h refl)
marshal-unmarshal (some (c ∷ j)) h = (some (c ∷ j), refl, refl)
