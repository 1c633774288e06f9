-- ===== src/EtcdListen/Groups/Undone.antt =====
-- The end of a group's watch takes away what its beginning brought.
use j7f.Base.{
  ◌≡◌, refl, sym, ap, ◌∙◌, subst, false, ◌&&◌, List, [], ◌∷◌, ◌++◌, Option, none, some, Text,
  same_text, same_text_iff, same_text_refl, arith, if◌then◌else◌, length, append_assoc, Bool-cases,
  Option-cases, inl, inr,
}
use j7f.Base.Maps.{HasDistinct, Map, find, put, find-put, entry_at, entry_at-put, find_same}
use j7f.EtcdListen.{Listener, WatchServerInfo, or_empty}
use j7f.EtcdListen.Exports.{has_key, entry_or_empty}
use j7f.EtcdListen.Groups.{or_nil, add_names, add_group, forget_all, empty_group}
use j7f.EtcdListen.Groups.Kept.{empty_group-IsLeft}
use j7f.EtcdListen.Groups.Owned.{Distinct, Within}
use j7f.EtcdListen.Groups.Entries.{Names, keys_for}
use j7f.EtcdListen.Groups.Emptied.{HasOwn, Owns, forget_all_emptied}

-- An entry with more keys behind it.
abbrev added : Option (List Text) → List Text → Option (List Text)
added e [] = e
added e (s ∷ ss) = some (or_nil e ++ s ∷ ss)

added-cons :
    (e : Option (List Text)) (s : Text) (ss : List Text)
    → added (some (or_nil e ++ s ∷ [])) ss ≡ some (or_nil e ++ s ∷ ss)
added-cons e s [] = refl
added-cons e s (t ∷ ts) = ap some (append_assoc (or_nil e) (s ∷ []) (t ∷ ts))

module _ (alias n : Text) where
  -- A round of `AddGroupWatchs`.
  abbrev with_key : Text → Text → Names → Names
  with_key sname name names =
      let files = or_empty (find name names) in
      let keys = or_nil (find alias files) in put name (put alias (keys ++ sname ∷ []) files) names

  with_key_entry :
      (b sname name : Text) (names : Names)
      → entry_at n b (with_key sname name names) ≡ (
          if same_text name n && same_text alias b
          then some (or_nil (entry_at n alias names) ++ sname ∷ [])
          else entry_at n b names)
  with_key_entry b sname name names =
      let files = or_empty (find name names) in
      let keys = or_nil (find alias files) ++ sname ∷ [] in
      elim (Bool-cases (same_text name n)) [
        | inr s ↦ ground (arith, entry_at-put name n b (put alias keys files) names)
        | inl s ↦ ground (
          arith,
          entry_at-put name n b (put alias keys files) names,
          find-put b alias keys files,
          find_same n name names s,
          entry_or_empty n b names,
          entry_or_empty n alias names,
        )
      ]

  -- `AddGroupWatchs` puts the group's keys behind those of its own entries, and touches no other entry.
  add_names_entry :
      (wsi : Map WatchServerInfo) (names : Names)
      → entry_at n alias (add_names alias wsi names)
        ≡ added (entry_at n alias names) (keys_for n wsi)
  unfolding add_names
  add_names_entry [] names = refl
  add_names_entry ((sname, watch) ∷ wsi) names = ground (
    arith,
    add_names_entry wsi (with_key sname watch.name names),
    with_key_entry alias sname watch.name names,
    same_text_refl alias,
    added-cons (entry_at n alias names) sname (keys_for n wsi),
  )

  add_names_kept :
      (b : Text) (wsi : Map WatchServerInfo) (names : Names)
      → same_text alias b ≡ false
      → entry_at n b (add_names alias wsi names) ≡ entry_at n b names
  unfolding add_names
  add_names_kept b [] names h = refl
  add_names_kept b ((sname, watch) ∷ wsi) names h = ground (
    arith,
    add_names_kept b wsi (with_key sname watch.name names) h,
    with_key_entry b sname watch.name names,
  )

has_key-keys_for :
    (sname n : Text) (wsi : Map WatchServerInfo)
    → find sname wsi ≡ none
    → has_key sname (keys_for n wsi) ≡ false
unfolding find
has_key-keys_for sname n [] h = refl
has_key-keys_for sname n ((k, watch) ∷ wsi) h = ground (arith, has_key-keys_for sname n wsi)

keys_for-Distinct :
    (n : Text) (wsi : Map WatchServerInfo) → HasDistinct wsi → Distinct (keys_for n wsi)
keys_for-Distinct n [] h = tt
keys_for-Distinct n ((sname, watch) ∷ wsi) h = elim (Bool-cases (same_text watch.name n)) [
  | inl s ↦ rw s (has_key-keys_for sname n wsi h.0, keys_for-Distinct n wsi h.1)
  | inr s ↦ rw s (keys_for-Distinct n wsi h.1)
]

Within-cons :
    (x : Text) (allowed keys : List Text) → Within allowed keys → Within (x ∷ allowed) keys
Within-cons x allowed [] w = tt
Within-cons x allowed (k ∷ ks) w = (ground (arith, w.0), Within-cons x allowed ks w.1)

Within-self : (keys : List Text) → Within keys keys
Within-self [] = tt
Within-self (k ∷ ks) = (ground (arith, same_text_refl k), Within-cons k ks ks (Within-self ks))

added-HasOwn : (keys : List Text) → Distinct keys → HasOwn keys (added none keys)
added-HasOwn [] d = tt
added-HasOwn (k ∷ ks) d = (d, Within-self (k ∷ ks))

longer : (t : Text) → same_text t (0 ∷ t) ≡ false
longer t = elim (Bool-cases (same_text t (0 ∷ t))) [
  | inr e ↦ e
  | inl e ↦ absurd (omega (arith, ap length ((same_text_iff t (0 ∷ t)).0 e)))
]

module _ (wsi : Map WatchServerInfo) (alias : Text) (l m : Listener) (distinct : HasDistinct wsi)
    (unknown : (n : Text) → entry_at n alias l.names_with_output_file ≡ none)
    (added_group : add_group wsi alias l ≡ some m) where
  fresh : find alias l.output_file_has_keys ≡ none
  fresh = elim (Option-cases (find alias l.output_file_has_keys)) [
    | inl e ↦ e
    | inr (group, e) ↦ absurd (unfold add_group in ground arith)
  ]

  added_names : m.names_with_output_file ≡ add_names alias wsi l.names_with_output_file
  added_names = let e = fresh in unfold add_group in ground arith

  added_keys : m.output_file_has_keys ≡ put alias wsi l.output_file_has_keys
  added_keys = let e = fresh in unfold add_group in ground arith

  emptied_names :
      (empty_group alias m).0.names_with_output_file
      ≡ (forget_all alias wsi m.names_with_output_file).0
  emptied_names =
      let e : find alias m.output_file_has_keys ≡ some wsi = ground (
        arith,
        ap (find alias) added_keys,
        find-put alias alias wsi l.output_file_has_keys,
        same_text_refl alias,
      ) in
      unfold empty_group in ground arith

  added-Owns : Owns alias wsi m.names_with_output_file
  added-Owns n =
      let entry : entry_at n alias m.names_with_output_file ≡ added none (keys_for n wsi) =
        ap (entry_at n alias) added_names
        ∙ (add_names_entry alias n wsi l.names_with_output_file
            ∙ ap (λ e. added e (keys_for n wsi)) (unknown n)) in
      subst (HasOwn (keys_for n wsi)) (sym entry)
        (added-HasOwn (keys_for n wsi) (keys_for-Distinct n wsi distinct))

  own_gone : (n : Text) → entry_at n alias (empty_group alias m).0.names_with_output_file ≡ none
  own_gone n =
      ap (entry_at n alias) emptied_names
      ∙ forget_all_emptied alias n wsi m.names_with_output_file added-Owns

  -- The maps behind both calls, but for the calls of `RemoveWatch`.
  pub empty_group-add_group :
      (n b : Text)
      → (entry_at n b (empty_group alias m).0.names_with_output_file
          ≡ entry_at n b l.names_with_output_file)
        × (find b (empty_group alias m).0.output_file_has_keys ≡ find b l.output_file_has_keys)
  empty_group-add_group n b = elim (Bool-cases (same_text alias b)) [
    | inl s ↦
        let same : alias ≡ b = (same_text_iff alias b).0 s in
        let left = empty_group-IsLeft alias (0 ∷ alias) n (longer alias) m in
        subst
          (λ c.
            (entry_at n c (empty_group alias m).0.names_with_output_file
              ≡ entry_at n c l.names_with_output_file)
            × (find c (empty_group alias m).0.output_file_has_keys ≡ find c l.output_file_has_keys))
          same (own_gone n ∙ sym (unknown n), left.no_keys ∙ sym fresh)
    | inr s ↦
        let left = empty_group-IsLeft alias b n s m in
        (
          left.names
              ∙ (ap (entry_at n b) added_names
                  ∙ add_names_kept alias n b wsi l.names_with_output_file s),
          left.keys
              ∙ (ap (find b) added_keys
                  ∙ ground (arith, find-put b alias wsi l.output_file_has_keys)),
        )
  ]
