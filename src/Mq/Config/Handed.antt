-- ===== src/Mq/Config/Handed.antt =====
-- Which settings reach nsq.
use j7f.Base.{
  ◌≡◌, refl, ap, ◌∙◌, List, [], ◌∷◌, Option, none, some, Text, same_text, codes, arith,
  if◌then◌else◌, Bool-cases, inl, inr,
}
use j7f.Base.Maps.{HasDistinct, put-HasDistinct, Map, find, put, find_same}
use j7f.Mq.Config.{
  FieldValue, duration_value, Field, Config, config_fields, struct_to_map, is_empty, handed,
}

struct_to_map-HasDistinct :
    {Float : Type 0} (fs : List (Field Float)) (m : Map (FieldValue Float))
    → HasDistinct m
    → HasDistinct (struct_to_map fs m)
unfolding struct_to_map
struct_to_map-HasDistinct [] m u = u
struct_to_map-HasDistinct (f ∷ fs) m u =
    struct_to_map-HasDistinct fs _ (put-HasDistinct _ f.value m u)

abbrev pub unless_empty : {Float : Type 0} → Option (FieldValue Float) → Option (FieldValue Float)
unless_empty none = none
unless_empty (some value) = if is_empty value then none else some value

find-handed :
    {Float : Type 0} (key : Text) (m : Map (FieldValue Float))
    → HasDistinct m
    → find key (handed m) ≡ unless_empty (find key m)
unfolding handed find
find-handed key [] u = refl
find-handed key ((k, v) ∷ m) (n, u) = elim (Bool-cases (same_text k key)) [
  | inl e ↦
      let absent : find key m ≡ none = find_same key k m e ∙ n in
      ground (arith, find-handed key m u, ap unless_empty absent)
  | inr e ↦ ground (arith, find-handed key m u)
]

-- A setting is handed to nsq under its tag where it is not empty, and else no setting is.
handed_lem :
    {Float : Type 0} (key : Text) (fs : List (Field Float))
    → find key (handed (struct_to_map fs [])) ≡ unless_empty (find key (struct_to_map fs []))
handed_lem key fs = find-handed key (struct_to_map fs []) (struct_to_map-HasDistinct fs [] tt)

-- The timeouts of dialling and of reading are handed on, also where they are zero.
duration_handed :
    {Float : Type 0} (c : Config Float)
    → (find (codes "dial_timeout") (handed (struct_to_map (config_fields c) []))
        ≡ some (duration_value c.dial_timeout))
      × (find (codes "read_timeout") (handed (struct_to_map (config_fields c) []))
          ≡ some (duration_value c.read_timeout))
duration_handed c = (
  handed_lem (codes "dial_timeout") (config_fields c)
      ∙ unfold struct_to_map find put is_empty in refl,
  handed_lem (codes "read_timeout") (config_fields c)
      ∙ unfold struct_to_map find put is_empty in refl,
)
