-- ===== src/EtcdListen/Groups/Named.antt =====
-- Which names are watched once a group starts or ends its watch.
use j7f.Base.{
  ◌≡◌, sym, ap, ◌∙◌, true, List, [], ◌∷◌, none, some, Text, same_text, arith, Bool-cases,
  Option-cases, ◌⊎◌, inl, inr,
}
use j7f.Base.Maps.{Map, find, put, remove, find-put, find-remove}
use j7f.EtcdListen.{Listener, WatchServerInfo, or_empty, is_empty}
use j7f.EtcdListen.Exports.{has_key}
use j7f.EtcdListen.Groups.{
  or_nil, add_names, add_group, forget_key, forget_sname, forget_alias, forget_name, forget_all,
  empty_group,
}

abbrev Names : Type 0
Names = Map (Map (List Text))

-- A change of the watched names that takes the key from none of them.
abbrev pub Grows : Text → Names → Names → Type 0
Grows key names next = find key next ≡ none → find key names ≡ none

module _ (key : Text) where
  put-Grows :
      (name : Text) (files : Map (List Text)) (names : Names)
      → Grows key names (put name files names)
  put-Grows name files names h = ground (arith, find-put key name files names)

  add_names-Grows :
      (alias : Text) (wsi : Map WatchServerInfo) (names : Names)
      → Grows key names (add_names alias wsi names)
  unfolding add_names
  add_names-Grows alias [] names h = h
  add_names-Grows alias ((sname, watch) ∷ wsi) names h =
      put-Grows watch.name _ names (add_names-Grows alias wsi _ h)

  pub add_group-Grows :
      (wsi : Map WatchServerInfo) (alias : Text) (l m : Listener)
      → add_group wsi alias l ≡ some m
      → Grows key l.names_with_output_file m.names_with_output_file
  add_group-Grows wsi alias l m e h = elim (Option-cases (find alias l.output_file_has_keys)) [
    | inr (group, f) ↦ absurd (unfold add_group in ground arith)
    | inl f ↦
        let is : m.names_with_output_file ≡ add_names alias wsi l.names_with_output_file =
          unfold add_group in ground arith in
        add_names-Grows alias wsi _ (ap (find key) (sym is) ∙ h)
  ]

  forget_sname-Grows :
      (alias sname name : Text) (names : Names)
      → Grows key names (forget_sname alias sname name names)
  forget_sname-Grows alias sname name names h = elim (Option-cases (find name names)) [
    | inl e ↦ unfold forget_sname in ground arith
    | inr (files, e) ↦ elim (Option-cases (find alias files)) [
      | inl f ↦ unfold forget_sname in ground arith
      | inr (keys, f) ↦
          put-Grows name (put alias (forget_key sname keys) files) names
            (unfold forget_sname in ground arith)
    ]
  ]

  forget_alias-Grows :
      (alias name : Text) (names : Names) → Grows key names (forget_alias alias name names)
  forget_alias-Grows alias name names h = elim (Option-cases (find name names)) [
    | inl e ↦ unfold forget_alias in ground arith
    | inr (files, e) ↦ elim (Bool-cases (is_empty (or_nil (find alias files)))) [
      | inr f ↦ unfold forget_alias in ground arith
      | inl f ↦ put-Grows name (remove alias files) names (unfold forget_alias in ground arith)
    ]
  ]

  -- Only a name that no file is left for goes.
  forget_name_gone :
      (name : Text) (names : Names)
      → find key (forget_name name names) ≡ none
      → (find key names ≡ none)
        ⊎ ((is_empty (or_empty (find name names)) ≡ true) × (same_text name key ≡ true))
  forget_name_gone name names h = elim (Bool-cases (is_empty (or_empty (find name names)))) [
    | inr e ↦ inl (unfold forget_name in ground arith)
    | inl e ↦ elim (Bool-cases (same_text name key)) [
      | inl s ↦ inr (e, s)
      | inr s ↦ inl (unfold forget_name in ground (arith, find-remove key name names))
    ]
  ]

  -- A name that goes is taken off the watcher.
  forget_all_gone :
      (alias : Text) (group : Map WatchServerInfo) (names : Names)
      → find key (forget_all alias group names).0 ≡ none
      → (find key names ≡ none) ⊎ (has_key key (forget_all alias group names).1 ≡ true)
  unfolding forget_all
  forget_all_gone alias [] names h = inl h
  forget_all_gone alias ((sname, watch) ∷ group) names h =
      let first = forget_sname alias sname watch.name names in
      let left = forget_alias alias watch.name first in
      elim (forget_all_gone alias group (forget_name watch.name left) h) [
        | inr g ↦ inr (ground arith)
        | inl g ↦ elim (forget_name_gone watch.name left g) [
          | inr (e, s) ↦ inr (ground arith)
          | inl f ↦ inl (
              forget_sname-Grows alias sname watch.name names
                (forget_alias-Grows alias watch.name first f))
        ]
      ]

  pub empty_group_gone :
      (alias : Text) (l : Listener)
      → find key (empty_group alias l).0.names_with_output_file ≡ none
      → (find key l.names_with_output_file ≡ none) ⊎ (has_key key (empty_group alias l).1 ≡ true)
  empty_group_gone alias l h = elim (Option-cases (find alias l.output_file_has_keys)) [
    | inl e ↦ inl (unfold empty_group in ground arith)
    | inr (group, e) ↦
        elim (forget_all_gone alias group l.names_with_output_file
          (unfold empty_group in ground arith)) [
            | inl f ↦ inl f
            | inr f ↦ inr (unfold empty_group in ground arith)
          ]
  ]
