-- ===== src/EtcdListen/Watcher/Exported.antt =====
-- What a file is given after all that a watch tells the listener.
use j7f.Base.{
  ◌≡◌, ap, sym, ◌∙◌, Bool, true, List, [], ◌∷◌, Option, some, Text, same_text, same_text_iff, arith,
  if◌then◌else◌, Bool-cases, inl, inr,
}
use j7f.Base.Maps.{Map, find, put, entry_at, entry_at-put}
use j7f.EtcdListen.{
  WatchServerInfo, WriteServerInfo, Listener, or_empty, servers_for, export_keys, export_files,
}
use j7f.EtcdListen.Exports.{has_key, export_keys_lem, entry_or_empty}

-- The file watches for the name `w` by the key, with the configuration.
pub record Watches (w file key : Text) (config : WatchServerInfo)
    (by : Map (Map (List Text)) × Map (Map WatchServerInfo)) : Type 0 where
  pub files : Map (List Text)
  pub keys : List Text
  pub configs : Map WatchServerInfo
  pub named : find w by.0 ≡ some files
  pub listed : find file files ≡ some keys
  pub wanted : has_key key keys ≡ true
  pub grouped : find file by.1 ≡ some configs
  pub configured : find key configs ≡ some config

module _ (in_range : Text → Text → Bool) (file key : Text) (config : WatchServerInfo) where
  -- The output of the file under the key, and the one that the known nodes call for.
  abbrev pub output_of : Listener → Option (List WriteServerInfo)
  output_of l = entry_at file key l.output_file_map

  abbrev pub IsSettled : Listener → Type 0
  IsSettled l = output_of l ≡ some (servers_for in_range config l.etcd_settings)

  abbrev new_output : Text → List Text → Listener → Map (List WriteServerInfo)
  new_output f namekeys l =
      export_keys in_range l.etcd_settings (find f l.output_file_has_keys) namekeys
        (or_empty (find f l.output_file_map))

  abbrev round : Text → List Text → Listener → Listener
  round f namekeys l = record l {
    output_file_map = put f (new_output f namekeys l) l.output_file_map;
  }

  round_output :
      (f : Text) (namekeys : List Text) (l : Listener) (configs : Map WatchServerInfo)
      → find file l.output_file_has_keys ≡ some configs
      → find key configs ≡ some config
      → output_of (round f namekeys l) ≡ (
          if same_text f file
          then (if has_key key namekeys
              then some (servers_for in_range config l.etcd_settings)
              else output_of l)
          else output_of l)
  round_output f namekeys l configs g c = elim (Bool-cases (same_text f file)) [
    | inr s ↦ ground (arith, entry_at-put f file key (new_output f namekeys l) l.output_file_map)
    | inl s ↦
        let same : f ≡ file = (same_text_iff f file).0 s in
        let group : find f l.output_file_has_keys ≡ some configs =
          ap (λ t. find t l.output_file_has_keys) same ∙ g in
        let before = or_empty (find f l.output_file_map) in
        let kept : find key before ≡ output_of l =
          sym (entry_or_empty f key l.output_file_map)
          ∙ ap (λ t. entry_at t key l.output_file_map) same in
        let output = export_keys in_range l.etcd_settings (some configs) namekeys before in
        let exported : export_keys in_range l.etcd_settings (find f l.output_file_has_keys) namekeys
              before
            ≡ output =
          ap (λ o. export_keys in_range l.etcd_settings o namekeys before) group in
        ground (
          arith,
          ap (λ n. entry_at file key (put f n l.output_file_map)) exported,
          entry_at-put f file key output l.output_file_map,
          export_keys_lem in_range l.etcd_settings configs key namekeys before,
          kept,
          c,
        )
  ]

  module _ (configs : Map WatchServerInfo) (c : find key configs ≡ some config) where
    -- The loop over the files: a file that is settled stays so, and one that is reached is.
    export_files_settled :
        (files : Map (List Text)) (l : Listener)
        → find file l.output_file_has_keys ≡ some configs
        → IsSettled l
        → output_of (export_files in_range files l).0
          ≡ some (servers_for in_range config l.etcd_settings)
    unfolding export_files
    export_files_settled [] l g s = s
    export_files_settled ((f, namekeys) ∷ files) l g s =
        export_files_settled files (round f namekeys l) g
          (ground (arith, round_output f namekeys l configs g c))

    pub export_files_settles :
        (files : Map (List Text)) (keys : List Text) (l : Listener)
        → find file l.output_file_has_keys ≡ some configs
        → find file files ≡ some keys
        → has_key key keys ≡ true
        → output_of (export_files in_range files l).0
          ≡ some (servers_for in_range config l.etcd_settings)
    unfolding export_files find
    export_files_settles [] keys l g e h = cc
    export_files_settles ((f, namekeys) ∷ files) keys l g e h =
        elim (Bool-cases (same_text f file)) [
          | inl s ↦
              export_files_settled files (round f namekeys l) g
                (ground (arith, round_output f namekeys l configs g c))
          | inr s ↦ export_files_settles files keys (round f namekeys l) g (ground arith) h
        ]
