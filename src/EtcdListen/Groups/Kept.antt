-- ===== src/EtcdListen/Groups/Kept.antt =====
-- The end of a group's watch leaves the other groups alone.
use j7f.Base.{
  ◌≡◌, refl, sym, ap, ◌∙◌, true, false, List, [], ◌∷◌, none, some, Text, same_text, same_text_refl,
  subst, arith, if◌then◌else◌, Bool-cases, Option-cases, inl, inr,
}
use j7f.Base.Maps.{
  Map, find, put, remove, find-put, find-remove, entry_at, entry_at-put, entry_at-remove, find_same,
}
use j7f.EtcdListen.{Listener, WatchServerInfo, or_empty, is_empty}
use j7f.EtcdListen.Groups.{
  or_nil, forget_key, forget_sname, forget_alias, forget_name, forget_all, empty_group,
}

abbrev Names : Type 0
Names = Map (Map (List Text))

-- A name that no file is left for has no entry, so that its removal takes none away.
module _ (b n : Text) where
  empty_files : (files : Map (List Text)) → is_empty files ≡ true → find b files ≡ none
  unfolding find
  empty_files [] h = refl
  empty_files (x ∷ files) h = cc

  gone :
      (name : Text) (names : Names)
      → is_empty (or_empty (find name names)) ≡ true
      → (if same_text name n then none else entry_at n b names) ≡ entry_at n b names
  gone name names h = elim (Bool-cases (same_text name n)) [
    | inr f ↦ ground arith
    | inl f ↦ elim (Option-cases (find name names)) [
      | inl e ↦ ground (arith, find_same n name names f)
      | inr (files, e) ↦ ground (arith, find_same n name names f, empty_files files (ground arith))
    ]
  ]

  pub forget_name_kept :
      (name : Text) (names : Names) → entry_at n b (forget_name name names) ≡ entry_at n b names
  forget_name_kept name names = elim (Bool-cases (is_empty (or_empty (find name names)))) [
    | inr f ↦ ap (entry_at n b) (unfold forget_name in ground arith)
    | inl f ↦
        let step : forget_name name names ≡ remove name names =
          unfold forget_name in ground arith in
        ap (entry_at n b) step ∙ (entry_at-remove name n b names ∙ gone name names f)
  ]

module _ (alias b n : Text) (apart : same_text alias b ≡ false) where
  -- A change of the files of a name that leaves the other file's entry.
  put_kept :
      (name : Text) (files next : Map (List Text)) (names : Names)
      → find name names ≡ some files
      → find b next ≡ find b files
      → entry_at n b (put name next names) ≡ entry_at n b names
  put_kept name files next names e f = elim (Bool-cases (same_text name n)) [
    | inl g ↦ ground (arith, entry_at-put name n b next names, find_same n name names g)
    | inr g ↦ ground (arith, entry_at-put name n b next names)
  ]

  forget_sname_kept :
      (sname name : Text) (names : Names)
      → entry_at n b (forget_sname alias sname name names) ≡ entry_at n b names
  forget_sname_kept sname name names = elim (Option-cases (find name names)) [
    | inl e ↦ ap (entry_at n b) (unfold forget_sname in ground arith)
    | inr (files, e) ↦ elim (Option-cases (find alias files)) [
      | inl f ↦ ap (entry_at n b) (unfold forget_sname in ground arith)
      | inr (keys, f) ↦
          let next = put alias (forget_key sname keys) files in
          let step : forget_sname alias sname name names ≡ put name next names =
            unfold forget_sname in ground arith in
          ap (entry_at n b) step
          ∙ put_kept name files next names e
              (ground (arith, find-put b alias (forget_key sname keys) files))
    ]
  ]

  forget_alias_kept :
      (name : Text) (names : Names)
      → entry_at n b (forget_alias alias name names) ≡ entry_at n b names
  forget_alias_kept name names = elim (Option-cases (find name names)) [
    | inl e ↦ ap (entry_at n b) (unfold forget_alias in ground arith)
    | inr (files, e) ↦ elim (Bool-cases (is_empty (or_nil (find alias files)))) [
      | inr f ↦ ap (entry_at n b) (unfold forget_alias in ground arith)
      | inl f ↦
          let step : forget_alias alias name names ≡ put name (remove alias files) names =
            unfold forget_alias in ground arith in
          ap (entry_at n b) step
          ∙ put_kept name files (remove alias files) names e
              (ground (arith, find-remove b alias files))
    ]
  ]

  forget_all_kept :
      (group : Map WatchServerInfo) (names : Names)
      → entry_at n b (forget_all alias group names).0 ≡ entry_at n b names
  unfolding forget_all
  forget_all_kept [] names = refl
  forget_all_kept ((sname, watch) ∷ group) names =
      let first = forget_sname alias sname watch.name names in
      let left = forget_alias alias watch.name first in
      forget_all_kept group (forget_name watch.name left)
      ∙ (forget_name_kept b n watch.name left
          ∙ (forget_alias_kept watch.name first ∙ forget_sname_kept sname watch.name names))

  -- What is left of a listener: the other file's entries, and nothing of the group's own.
  pub record IsLeft (l m : Listener) : Type 0 where
    pub names : entry_at n b m.names_with_output_file ≡ entry_at n b l.names_with_output_file
    pub output : find b m.output_file_map ≡ find b l.output_file_map
    pub keys : find b m.output_file_has_keys ≡ find b l.output_file_has_keys
    pub no_output : find alias m.output_file_map ≡ none
    pub no_keys : find alias m.output_file_has_keys ≡ none

  removed_kept : {A : Type 0} (m : Map A) → find b (remove alias m) ≡ find b m
  removed_kept m = ground (arith, find-remove b alias m)

  removed_gone : {A : Type 0} (m : Map A) → find alias (remove alias m) ≡ none
  removed_gone m = ground (arith, find-remove alias alias m, same_text_refl alias)

  -- When a group ends its watch by `EmptyGroupWatchs`, and its calls of `RemoveWatch` do not
  -- panic, every other group keeps its output, its keys and its entry under each watched name,
  -- and nothing is left of the group's own output and keys.
  pub empty_group-IsLeft : (l : Listener) → IsLeft l (empty_group alias l).0
  empty_group-IsLeft l = elim (Option-cases (find alias l.output_file_has_keys)) [
    | inl e ↦
        let cleared = record l { output_file_map = remove alias l.output_file_map } in
        let step : empty_group alias l ≡ (cleared, []) = unfold empty_group in ground arith in
        subst (IsLeft l) (sym (ap (λ r. r.0) step)) (record {
          names = refl;
          output = removed_kept l.output_file_map;
          keys = refl;
          no_output = removed_gone l.output_file_map;
          no_keys = e;
        })
    | inr (group, e) ↦
        let rest = forget_all alias group l.names_with_output_file in
        let emptied = record l {
          output_file_map = remove alias l.output_file_map;
          output_file_has_keys = remove alias l.output_file_has_keys;
          names_with_output_file = rest.0;
        } in
        let step : empty_group alias l ≡ (emptied, rest.1) = unfold empty_group in ground arith in
        subst (IsLeft l) (sym (ap (λ r. r.0) step)) (record {
          names = forget_all_kept group l.names_with_output_file;
          output = removed_kept l.output_file_map;
          keys = removed_kept l.output_file_has_keys;
          no_output = removed_gone l.output_file_map;
          no_keys = removed_gone l.output_file_has_keys;
        })
  ]
