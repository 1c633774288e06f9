-- ===== src/EtcdListen/Exports.antt =====
-- What a file is given when one of its watched keys changes.
pub mod Named
use j7f.Base.{
  ◌≡◌, refl, ◌∙◌, Bool, false, ◌||◌, List, [], ◌∷◌, Option, none, some, Text, same_text, arith,
  if◌then◌else◌, Bool-cases, Option-cases, inl, inr,
}
use j7f.Base.Maps.{Map, find, remove, find-put, find-remove, find_same, entry_at}
use j7f.EtcdListen.{
  or_empty, NodeInfo, WatchServerInfo, WriteServerInfo, servers_for, export_key, export_keys,
}

pub entry_or_empty {ℓ} :
    {A : Type ℓ} (v j : Text) (m : Map (Map A)) → entry_at v j m ≡ find j (or_empty (find v m))
entry_or_empty v j m = elim (Option-cases (find v m)) [
  | inl e ↦ unfold find in ground arith
  | inr (n, e) ↦ ground arith
]

abbrev pub has_key : Text → List Text → Bool
has_key key [] = false
has_key key (x ∷ xs) = same_text x key || has_key key xs

module _ (in_range : Text → Text → Bool) (settings : Map (Map NodeInfo))
    (configs : Map WatchServerInfo) where
  -- The output under a key once it is written, if the file watches for the key.
  abbrev pub written : Text → Map (List WriteServerInfo) → Option (List WriteServerInfo)
  written key output = elim (find key configs) [
    | none ↦ find key output
    | some config ↦ some (servers_for in_range config settings)
  ]

  export_key_lem :
      (key namekey : Text) (output : Map (List WriteServerInfo))
      → find key (export_key in_range settings (some configs) namekey output)
        ≡ (if same_text namekey key then written key output else find key output)
  unfolding export_key
  export_key_lem key namekey output = elim (Option-cases (find namekey configs)) [
    | inl e ↦ elim (Bool-cases (same_text namekey key)) [
      | inl f ↦ ground (arith, find_same key namekey configs f)
      | inr f ↦ ground arith
    ]
    | inr (config, e) ↦
        let servers = servers_for in_range config settings in
        elim (Bool-cases (same_text namekey key)) [
          | inl f ↦ ground (
            arith,
            find_same key namekey configs f,
            find-put key namekey servers (remove namekey output),
          )
          | inr f ↦ ground (
            arith,
            find-put key namekey servers (remove namekey output),
            find-remove key namekey output,
          )
        ]
  ]

  -- When a file's keys are exported, the output under each of them that the file watches for is
  -- the list of the known nodes of its service whose version is in its range, in the order of
  -- the map, and the output under every other key stays.
  pub export_keys_lem :
      (key : Text) (namekeys : List Text) (output : Map (List WriteServerInfo))
      → find key (export_keys in_range settings (some configs) namekeys output)
        ≡ (if has_key key namekeys then written key output else find key output)
  unfolding export_keys
  export_keys_lem key [] output = refl
  export_keys_lem key (namekey ∷ namekeys) output =
      let next = export_key in_range settings (some configs) namekey output in
      export_keys_lem key namekeys next ∙ elim (Bool-cases (same_text namekey key)) [
        | inl f ↦ elim (Option-cases (find key configs)) [
          | inl e ↦ ground (arith, export_key_lem key namekey output)
          | inr (config, e) ↦ ground (arith, export_key_lem key namekey output)
        ]
        | inr f ↦ ground (arith, export_key_lem key namekey output)
      ]
