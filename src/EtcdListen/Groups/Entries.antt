-- ===== src/EtcdListen/Groups/Entries.antt =====
-- What a round of `EmptyGroupWatchs` makes of the entry of its own file under a name.
use j7f.Base.{
  ◌≡◌, ◌∙◌, List, [], ◌∷◌, Option, none, some, Text, same_text, same_text_refl, arith,
  if◌then◌else◌, Bool-cases, Option-cases, inl, inr,
}
use j7f.Base.Maps.{Map, find, put, remove, find-put, find-remove, entry_at, entry_at-put, find_same}
use j7f.EtcdListen.{WatchServerInfo, is_empty}
use j7f.EtcdListen.Groups.{or_nil, forget_key, forget_sname, forget_alias, forget_name}
use j7f.EtcdListen.Groups.Kept.{forget_name_kept}

abbrev pub Names : Type 0
Names = Map (Map (List Text))

-- The keys of a group that watch for a name.
abbrev pub keys_for : Text → Map WatchServerInfo → List Text
keys_for n [] = []
keys_for n ((sname, watch) ∷ group) =
    let rest = keys_for n group in if same_text watch.name n then sname ∷ rest else rest

-- What becomes of an entry: the keys behind one of them, or none.
abbrev pub map_entry : (List Text → List Text) → Option (List Text) → Option (List Text)
map_entry f none = none
map_entry f (some keys) = some (f keys)

abbrev pub filled : Option (List Text) → Option (List Text)
filled none = none
filled (some keys) = if is_empty keys then none else some keys

abbrev pub round : Text → Text → Text → Names → Names
round alias sname name names =
    forget_name name (forget_alias alias name (forget_sname alias sname name names))

module _ (alias n : Text) where
  forget_sname_entry :
      (sname name : Text) (names : Names)
      → entry_at n alias (forget_sname alias sname name names) ≡ (
          if same_text name n
          then map_entry (forget_key sname) (entry_at n alias names)
          else entry_at n alias names)
  forget_sname_entry sname name names = elim (Option-cases (find name names)) [
    | inl e ↦ elim (Bool-cases (same_text name n)) [
      | inl s ↦ unfold forget_sname in ground (arith, find_same n name names s)
      | inr s ↦ unfold forget_sname in ground arith
    ]
    | inr (files, e) ↦ elim (Option-cases (find alias files)) [
      | inl f ↦ elim (Bool-cases (same_text name n)) [
        | inl s ↦ unfold forget_sname in ground (arith, find_same n name names s)
        | inr s ↦ unfold forget_sname in ground arith
      ]
      | inr (keys, f) ↦
          let next = put alias (forget_key sname keys) files in
          let is : forget_sname alias sname name names ≡ put name next names =
            unfold forget_sname in ground arith in
          let own = find-put alias alias (forget_key sname keys) files in
          elim (Bool-cases (same_text name n)) [
            | inl s ↦ ground (
              arith,
              is,
              entry_at-put name n alias next names,
              own,
              same_text_refl alias,
              find_same n name names s,
            )
            | inr s ↦ ground (arith, is, entry_at-put name n alias next names)
          ]
    ]
  ]

  forget_alias_entry :
      (name : Text) (names : Names)
      → entry_at n alias (forget_alias alias name names)
        ≡ (if same_text name n then filled (entry_at n alias names) else entry_at n alias names)
  forget_alias_entry name names = elim (Option-cases (find name names)) [
    | inl e ↦ elim (Bool-cases (same_text name n)) [
      | inl s ↦ unfold forget_alias in ground (arith, find_same n name names s)
      | inr s ↦ unfold forget_alias in ground arith
    ]
    | inr (files, e) ↦ elim (Bool-cases (is_empty (or_nil (find alias files)))) [
      | inr f ↦ elim (Bool-cases (same_text name n)) [
        | inl s ↦ unfold forget_alias in ground (arith, find_same n name names s)
        | inr s ↦ unfold forget_alias in ground arith
      ]
      | inl f ↦
          let next = remove alias files in
          let is : forget_alias alias name names ≡ put name next names =
            unfold forget_alias in ground arith in
          elim (Bool-cases (same_text name n)) [
            | inl s ↦ ground (
              arith,
              is,
              entry_at-put name n alias next names,
              find-remove alias alias files,
              same_text_refl alias,
              find_same n name names s,
            )
            | inr s ↦ ground (arith, is, entry_at-put name n alias next names)
          ]
    ]
  ]

  pub round_entry :
      (sname name : Text) (names : Names)
      → entry_at n alias (round alias sname name names) ≡ (
          if same_text name n
          then filled (map_entry (forget_key sname) (entry_at n alias names))
          else entry_at n alias names)
  round_entry sname name names =
      let first = forget_sname alias sname name names in
      forget_name_kept alias n name (forget_alias alias name first)
      ∙ ground (arith, forget_alias_entry name first, forget_sname_entry sname name names)
