-- ===== src/EtcdListen.antt =====
-- util/etcd_listen/etcd_listen.go: the nodes that etcd tells of, and the groups that watch for them. The
-- package's variables are the fields of `Listener`; what `Export` is given is a result.
pub mod Settings
pub mod Exports
pub mod Groups
pub mod Watcher
pub mod Listening
pub mod Tests
use j7f.Base.{
  ℕ, ◌+◌, Bool, true, false, List, [], ◌∷◌, ◌++◌, Option, none, some, Text, same_text,
  if◌then◌else◌, length, ◌==◌,
}
use j7f.Base.Maps.{Map, find, put, remove}

pub record WatchServerInfo : Type 0 where
  pub name : Text
  pub version : Text

pub record WriteServerInfo : Type 0 where
  pub serverkey : Text
  pub ip : Text
  pub port : ℕ

-- The fields of a `nodeInfo` that the code reads.
pub record NodeInfo : Type 0 where
  pub ip : Text
  pub port : ℕ
  pub version : Text

pub record Listener : Type 0 where
  pub output_file_has_keys : Map (Map WatchServerInfo)
  pub names_with_output_file : Map (Map (List Text))
  pub output_file_map : Map (Map (List WriteServerInfo))
  pub etcd_settings : Map (Map NodeInfo)

abbrev pub or_empty {ℓ} : {A : Type ℓ} → Option (Map A) → Map A
or_empty none = []
or_empty (some m) = m

abbrev pub is_empty {ℓ} : {A : Type ℓ} → List A → Bool
is_empty [] = true
is_empty (x ∷ xs) = false

-- `tiggerChangeWatchKeyValue`; `parse` is `json.Unmarshal` into a `nodeInfo`.
pub remove_node : Text → Text → Map (Map NodeInfo) → Map (Map NodeInfo)
remove_node watchkey key settings = elim (find watchkey settings) [
  | none ↦ settings
  | some nodes ↦ elim (find key nodes) [
    | none ↦ settings
    | some ni ↦
        if is_empty (remove key nodes)
        then remove watchkey settings
        else put watchkey (remove key nodes) settings
  ]
]

pub set_node :
    (Text → Option NodeInfo) → Text → Text → Text → Map (Map NodeInfo) → Map (Map NodeInfo)
set_node parse watchkey key value settings =
    let nodes = or_empty (find watchkey settings) in
    elim (parse value) [
      | none ↦ put watchkey nodes settings
      | some ni ↦ put watchkey (put key ni nodes) settings
    ]

pub change_settings :
    (Text → Option NodeInfo) → Text → Text → Text → Map (Map NodeInfo) → Map (Map NodeInfo)
unfolding remove_node set_node
change_settings parse watchkey key value settings =
    if is_empty key
    then remove watchkey settings
    else if is_empty value
    then remove_node watchkey key settings
    else set_node parse watchkey key value settings

-- The nodes in the range, in the order of the map; `in_range` is the test of the semver library, false
-- where one of the two texts is no version or no range.
matching : (Text → Text → Bool) → Text → Map NodeInfo → List WriteServerInfo
matching in_range range_ [] = []
matching in_range range_ ((key, ni) ∷ nodes) =
    let rest = matching in_range range_ nodes in
    if in_range ni.version range_
    then record { serverkey = key; ip = ni.ip; port = ni.port } ∷ rest
    else rest

pub servers_for : (Text → Text → Bool) → WatchServerInfo → Map (Map NodeInfo) → List WriteServerInfo
unfolding matching
servers_for in_range config settings = elim (find config.name settings) [
  | none ↦ []
  | some nodes ↦ matching in_range config.version nodes
]

-- A round of `tiggerChangesWatchKey` for a key of a file: what becomes of the file's output.
pub export_key :
    (Text → Text → Bool)
    → Map (Map NodeInfo)
    → Option (Map WatchServerInfo)
    → Text
    → Map (List WriteServerInfo)
    → Map (List WriteServerInfo)
unfolding servers_for
export_key in_range settings none namekey output = output
export_key in_range settings (some configs) namekey output = elim (find namekey configs) [
  | none ↦ output
  | some config ↦ put namekey (servers_for in_range config settings) (remove namekey output)
]

pub export_keys :
    (Text → Text → Bool)
    → Map (Map NodeInfo)
    → Option (Map WatchServerInfo)
    → List Text
    → Map (List WriteServerInfo)
    → Map (List WriteServerInfo)
unfolding export_key
export_keys in_range settings configs [] output = output
export_keys in_range settings configs (namekey ∷ namekeys) output =
    export_keys in_range settings configs namekeys
      (export_key in_range settings configs namekey output)

-- The loop over the files, with the calls of `Export`.
pub export_files :
    (Text → Text → Bool)
    → Map (List Text)
    → Listener
    → Listener × List (Text × Map (List WriteServerInfo))
unfolding export_keys
export_files in_range [] l = (l, [])
export_files in_range ((file, namekeys) ∷ files) l =
    let output =
      export_keys in_range l.etcd_settings (find file l.output_file_has_keys) namekeys
        (or_empty (find file l.output_file_map)) in
    let (last, exports) =
      export_files in_range files
        (record l { output_file_map = put file output l.output_file_map }) in
    (last, (file, output) ∷ exports)

-- `tiggerChangesWatchKey`.
pub export_watchkey :
    (Text → Text → Bool) → Text → Listener → Listener × List (Text × Map (List WriteServerInfo))
unfolding export_files
export_watchkey in_range watchkey l = elim (find watchkey l.names_with_output_file) [
  | none ↦ (l, [])
  | some files ↦ export_files in_range files l
]

-- The calls of the watcher.
pub data Event : Type 0 where
  set create modify : Text → Text → Text → Event
  set_ok empty : Text → Event
  delete : Text → Text → Event

module _ (parse : Text → Option NodeInfo) (in_range : Text → Text → Bool) where
  change : Text → Text → Text → Listener → Listener
  change watchkey key value l = record l {
    etcd_settings = change_settings parse watchkey key value l.etcd_settings;
  }

  pub handle : Event → Listener → Listener × List (Text × Map (List WriteServerInfo))
  unfolding change
  handle (set watchkey key value) l = (change watchkey key value l, [])
  handle (set_ok watchkey) l = export_watchkey in_range watchkey l
  handle (create watchkey key value) l =
      export_watchkey in_range watchkey (change watchkey key value l)
  handle (modify watchkey key value) l =
      export_watchkey in_range watchkey (change watchkey key value l)
  handle (delete watchkey key) l = export_watchkey in_range watchkey (change watchkey key [] l)
  handle (empty watchkey) l = export_watchkey in_range watchkey (change watchkey [] [] l)
