-- ===== src/EtcdListen/Settings.antt =====
-- What the events make of the nodes that are known.
pub mod Distinct
use j7f.Base.{
  ◌≡◌, refl, ap, ◌∙◌, true, ◌&&◌, ◌||◌, [], ◌∷◌, Option, none, some, Text, same_text, arith,
  if◌then◌else◌, Bool-cases, Option-cases, inl, inr,
}
use j7f.Base.Maps.{
  Map, find, put, remove, find-put, find-remove, entry_at, entry_at-put, entry_at-remove, find_same,
}
use j7f.EtcdListen.{NodeInfo, or_empty, is_empty, remove_node, set_node, change_settings}

-- The node under a key of a watched key.
abbrev pub node_at : Text → Text → Map (Map NodeInfo) → Option NodeInfo
node_at = entry_at

-- The first of the two that is there.
abbrev pub first {ℓ} : {A : Type ℓ} → Option A → Option A → Option A
first none y = y
first (some x) y = some x

find_empty : (j : Text) (m : Map NodeInfo) → is_empty m ≡ true → find j m ≡ none
find_empty j [] h = unfold find in refl
find_empty j (x ∷ m) h = cc

-- The nodes under the removed key's watched key, with and without the key.
node_removed :
    (w k v j : Text) (nodes : Map NodeInfo) (settings : Map (Map NodeInfo))
    → find w settings ≡ some nodes
    → (if same_text w v then find j (remove k nodes) else node_at v j settings)
      ≡ (if same_text w v && same_text k j then none else node_at v j settings)
node_removed w k v j nodes settings e = elim (Bool-cases (same_text w v)) [
  | inl f ↦ ground (arith, find-remove j k nodes, find_same v w settings f)
  | inr f ↦ ground arith
]

node_absent :
    (w k v j : Text) (nodes : Map NodeInfo) (settings : Map (Map NodeInfo))
    → find w settings ≡ some nodes
    → find k nodes ≡ none
    → node_at v j settings ≡ (if same_text w v && same_text k j then none else node_at v j settings)
node_absent w k v j nodes settings e g = elim (Bool-cases (same_text w v && same_text k j)) [
  | inl f ↦
      ground (arith, find_same v w settings (ground arith), find_same j k nodes (ground arith))
  | inr f ↦ ground arith
]

remove_node_lem :
    (w k v j : Text) (settings : Map (Map NodeInfo))
    → node_at v j (remove_node w k settings)
      ≡ (if same_text w v && same_text k j then none else node_at v j settings)
remove_node_lem w k v j settings = elim (Option-cases (find w settings)) [
  | inl e ↦ elim (Bool-cases (same_text w v)) [
    | inl f ↦ unfold remove_node in ground (arith, find_same v w settings f)
    | inr f ↦ unfold remove_node in ground arith
  ]
  | inr (nodes, e) ↦ elim (Option-cases (find k nodes)) [
    | inl g ↦
        let kept : remove_node w k settings ≡ settings = unfold remove_node in ground arith in
        ap (node_at v j) kept ∙ node_absent w k v j nodes settings e g
    | inr (ni, g) ↦ elim (Bool-cases (is_empty (remove k nodes))) [
      | inl z ↦
          let kept : remove_node w k settings ≡ remove w settings =
            unfold remove_node in ground arith in
          ap (node_at v j) kept
          ∙ ground (
            arith,
            entry_at-remove w v j settings,
            find_empty j (remove k nodes) z,
            node_removed w k v j nodes settings e,
          )
      | inr z ↦
          let kept : remove_node w k settings ≡ put w (remove k nodes) settings =
            unfold remove_node in ground arith in
          ap (node_at v j) kept
          ∙ (entry_at-put w v j (remove k nodes) settings ∙ node_removed w k v j nodes settings e)
    ]
  ]
]

unchanged :
    (w k v j value : Text) (parse : Text → Option NodeInfo) (nodes : Map NodeInfo)
    (settings : Map (Map NodeInfo))
    → parse value ≡ none
    → (same_text w v ≡ true → node_at v j settings ≡ find j nodes)
    → (if same_text w v then find j nodes else node_at v j settings) ≡ (
        if same_text w v && same_text k j
        then first (parse value) (node_at v j settings)
        else node_at v j settings)
unchanged w k v j value parse nodes settings e before = elim (Bool-cases (same_text w v)) [
  | inl f ↦ elim (Bool-cases (same_text k j)) [
    | inl g ↦ ground (arith, before f)
    | inr g ↦ ground (arith, before f)
  ]
  | inr f ↦ ground arith
]

set_node_lem :
    (parse : Text → Option NodeInfo) (w k value v j : Text) (settings : Map (Map NodeInfo))
    → node_at v j (set_node parse w k value settings) ≡ (
        if same_text w v && same_text k j
        then first (parse value) (node_at v j settings)
        else node_at v j settings)
set_node_lem parse w k value v j settings =
    let nodes = or_empty (find w settings) in
    let before : same_text w v ≡ true → node_at v j settings ≡ find j nodes = λ f.
      elim (Option-cases (find w settings)) [
        | inl e ↦ ground (arith, find_same v w settings f, find_empty j [] refl)
        | inr (m, e) ↦ ground (arith, find_same v w settings f)
      ] in
    elim (Option-cases (parse value)) [
      | inl e ↦
          let kept : set_node parse w k value settings ≡ put w nodes settings =
            unfold set_node in ground arith in
          ap (node_at v j) kept
          ∙ (entry_at-put w v j nodes settings
              ∙ unchanged w k v j value parse nodes settings e before)
      | inr (ni, e) ↦
          let kept : set_node parse w k value settings ≡ put w (put k ni nodes) settings =
            unfold set_node in ground arith in
          ap (node_at v j) kept
          ∙ (entry_at-put w v j (put k ni nodes) settings ∙ elim (Bool-cases (same_text w v)) [
            | inl f ↦ ground (arith, before f, find-put j k ni nodes)
            | inr f ↦ ground arith
          ])
    ]

-- After an event for a watched key `w` and a key `k` with a value: with an empty `k` no node is
-- known under `w`, with an empty value none under `w` and `k`, with a value that JSON reads its
-- node is under `w` and `k`, and with another value the one from before. All other nodes are as
-- before.
pub change_settings_lem :
    (parse : Text → Option NodeInfo) (w k value v j : Text) (settings : Map (Map NodeInfo))
    → node_at v j (change_settings parse w k value settings) ≡ (
        if same_text w v && (is_empty k || same_text k j)
        then (if is_empty k || is_empty value
            then none
            else first (parse value) (node_at v j settings))
        else node_at v j settings)
unfolding change_settings
change_settings_lem parse w k value v j settings = elim (Bool-cases (is_empty k)) [
  | inl e ↦ ground (arith, entry_at-remove w v j settings)
  | inr e ↦ elim (Bool-cases (is_empty value)) [
    | inl f ↦ ground (arith, remove_node_lem w k v j settings)
    | inr f ↦ ground (arith, set_node_lem parse w k value v j settings)
  ]
]
