-- ===== src/EtcdListen/Settings/Distinct.antt =====
-- No node is known twice under a watched name.
use j7f.Base.{
  ◌≡◌, refl, ap, sym, subst, Bool, List, [], ◌∷◌, Option, none, some, Text, same_text,
  same_text_iff, arith, if◌then◌else◌, Bool-cases, Option-cases, inl, inr,
}
use j7f.Base.Maps.{
  HasDistinct, put-HasDistinct, remove-HasDistinct, Map, find, put, remove, find-put, find-remove,
}
use j7f.EtcdListen.{
  NodeInfo, WriteServerInfo, or_empty, is_empty, remove_node, set_node, change_settings, matching,
  servers_for,
}

abbrev Settings : Type 0
Settings = Map (Map NodeInfo)

abbrev pub nodes_of : Text → Settings → Map NodeInfo
nodes_of w settings = or_empty (find w settings)

-- A change under the key `v` of what is known under `w`.
module _ (w v : Text) (settings : Settings) where
  nodes_of-put :
      (nodes : Map NodeInfo)
      → HasDistinct (nodes_of w settings)
      → HasDistinct nodes
      → HasDistinct (nodes_of w (put v nodes settings))
  nodes_of-put nodes h k = elim (Bool-cases (same_text v w)) [
    | inl s ↦ subst HasDistinct (sym (ground (arith, find-put w v nodes settings))) k
    | inr s ↦ subst HasDistinct (sym (ground (arith, find-put w v nodes settings))) h
  ]

  nodes_of-remove : HasDistinct (nodes_of w settings) → HasDistinct (nodes_of w (remove v settings))
  nodes_of-remove h = elim (Bool-cases (same_text v w)) [
    | inl s ↦
        let is : nodes_of w (remove v settings) ≡ [] = ground (arith, find-remove w v settings) in
        subst HasDistinct (sym is) tt
    | inr s ↦
        let is : nodes_of w (remove v settings) ≡ nodes_of w settings =
          ground (arith, find-remove w v settings) in
        subst HasDistinct (sym is) h
  ]

  old_nodes :
      (nodes : Map NodeInfo)
      → find v settings ≡ some nodes
      → ((u : Text) → HasDistinct (nodes_of u settings))
      → HasDistinct nodes
  old_nodes nodes e h = subst HasDistinct (ap or_empty e) (h v)

-- The nodes under every watched name have distinct keys.
abbrev pub AreDistinct : Settings → Type 0
AreDistinct settings = (w : Text) → HasDistinct (nodes_of w settings)

module _ (parse : Text → Option NodeInfo) (v key : Text) (settings : Settings)
    (h : AreDistinct settings) where
  remove_node-AreDistinct : AreDistinct (remove_node v key settings)
  remove_node-AreDistinct w = elim (Option-cases (find v settings)) [
    | inl e ↦
        let is : remove_node v key settings ≡ settings = unfold remove_node in ground arith in
        subst AreDistinct (sym is) h w
    | inr (nodes, e) ↦ elim (Option-cases (find key nodes)) [
      | inl f ↦
          let is : remove_node v key settings ≡ settings = unfold remove_node in ground arith in
          subst AreDistinct (sym is) h w
      | inr (ni, f) ↦ elim (Bool-cases (is_empty (remove key nodes))) [
        | inl b ↦
            let is : remove_node v key settings ≡ remove v settings =
              unfold remove_node in ground arith in
            subst (λ s. HasDistinct (nodes_of w s)) (sym is) (nodes_of-remove w v settings (h w))
        | inr b ↦
            let is : remove_node v key settings ≡ put v (remove key nodes) settings =
              unfold remove_node in ground arith in
            subst (λ s. HasDistinct (nodes_of w s)) (sym is)
              (nodes_of-put w v settings (remove key nodes) (h w)
                (remove-HasDistinct key nodes (old_nodes w v settings nodes e h)))
      ]
    ]
  ]

  set_node-AreDistinct : (value : Text) → AreDistinct (set_node parse v key value settings)
  set_node-AreDistinct value w =
      let nodes = nodes_of v settings in
      elim (Option-cases (parse value)) [
        | inl e ↦
            let is : set_node parse v key value settings ≡ put v nodes settings =
              unfold set_node in ground arith in
            subst (λ s. HasDistinct (nodes_of w s)) (sym is)
              (nodes_of-put w v settings nodes (h w) (h v))
        | inr (ni, e) ↦
            let is : set_node parse v key value settings ≡ put v (put key ni nodes) settings =
              unfold set_node in ground arith in
            subst (λ s. HasDistinct (nodes_of w s)) (sym is)
              (nodes_of-put w v settings (put key ni nodes) (h w)
                (put-HasDistinct key ni nodes (h v)))
      ]

  pub change_settings-AreDistinct :
      (value : Text) → AreDistinct (change_settings parse v key value settings)
  change_settings-AreDistinct value w = elim (Bool-cases (is_empty key)) [
    | inl b ↦
        let is : change_settings parse v key value settings ≡ remove v settings =
          unfold change_settings in ground arith in
        subst (λ s. HasDistinct (nodes_of w s)) (sym is) (nodes_of-remove w v settings (h w))
    | inr b ↦ elim (Bool-cases (is_empty value)) [
      | inl c ↦
          let is : change_settings parse v key value settings ≡ remove_node v key settings =
            unfold change_settings in ground arith in
          subst AreDistinct (sym is) remove_node-AreDistinct w
      | inr c ↦
          let is : change_settings parse v key value settings
              ≡ set_node parse v key value settings =
            unfold change_settings in ground arith in
          subst AreDistinct (sym is) (set_node-AreDistinct value) w
    ]
  ]

-- The server of a node among those that are exported.
abbrev pub server_at : Text → List WriteServerInfo → Option WriteServerInfo
server_at key [] = none
server_at key (s ∷ servers) =
    let rest = server_at key servers in if same_text s.serverkey key then some s else rest

-- What a node that is known, or none, is exported as.
abbrev pub exported_as :
    (Text → Text → Bool) → Text → Text → Option NodeInfo → Option WriteServerInfo
exported_as in_range range_ key none = none
exported_as in_range range_ key (some ni) =
    if in_range ni.version range_
    then some (record { serverkey = key; ip = ni.ip; port = ni.port })
    else none

module _ (in_range : Text → Text → Bool) (range_ : Text) where
  server_at-matching :
      (key : Text) (nodes : Map NodeInfo)
      → HasDistinct nodes
      → server_at key (matching in_range range_ nodes)
        ≡ exported_as in_range range_ key (find key nodes)
  unfolding matching find
  server_at-matching key [] h = refl
  server_at-matching key ((k, ni) ∷ nodes) h = elim (Bool-cases (same_text k key)) [
    | inr s ↦ ground (arith, server_at-matching key nodes h.1)
    | inl s ↦
        let same : k ≡ key = (same_text_iff k key).0 s in
        let later : find key nodes ≡ none = subst (λ t. find t nodes ≡ none) same h.0 in
        ground (arith, server_at-matching key nodes h.1)
  ]

  pub server_at-servers_for :
      (key name : Text) (settings : Settings)
      → AreDistinct settings
      → server_at key (servers_for in_range (record { name = name; version = range_ }) settings)
        ≡ exported_as in_range range_ key (find key (nodes_of name settings))
  server_at-servers_for key name settings h = elim (Option-cases (find name settings)) [
    | inl e ↦ unfold servers_for in unfold find in ground arith
    | inr (nodes, e) ↦
        unfold servers_for in
        ground (arith, server_at-matching key nodes (subst HasDistinct (ap or_empty e) (h name)))
  ]
