-- ===== src/EtcdListen/Groups.antt =====
-- util/etcd_listen/etcd_listen.go: a group of a file starts and ends its watch. These are the
-- changes of the maps; the watched keys that are to be taken off the watcher are a result, and
-- EtcdListen/Listening has the calls of `RemoveWatch`, which panic where there is no watcher.
pub mod Emptied
pub mod Entries
pub mod Kept
pub mod Named
pub mod Owned
pub mod Undone
use j7f.Base.{
  ℕ, ◌+◌, Bool, true, false, List, [], ◌∷◌, ◌++◌, Option, none, some, Text, if◌then◌else◌, drop,
}
use j7f.Base.Int.{pos, negsuc}
use j7f.Base.Maps.{Map, find, put, remove}
use j7f.Util.{contains}
use j7f.EtcdListen.{Listener, WatchServerInfo, or_empty, is_empty}

abbrev pub or_nil : Option (List Text) → List Text
or_nil none = []
or_nil (some keys) = keys

-- The loop of `AddGroupWatchs`.
add_names : Text → Map WatchServerInfo → Map (Map (List Text)) → Map (Map (List Text))
add_names alias [] names = names
add_names alias ((sname, watch) ∷ wsi) names =
    let files = or_empty (find watch.name names) in
    let keys = or_nil (find alias files) in
    add_names alias wsi (put watch.name (put alias (keys ++ sname ∷ []) files) names)

-- `AddGroupWatchs`; `none` is its error.
unfoldable pub add_group : Map WatchServerInfo → Text → Listener → Option Listener
unfolding add_names
add_group wsi alias l = elim (find alias l.output_file_has_keys) [
  | some group ↦ none
  | none ↦ some (record l {
    output_file_has_keys = put alias wsi l.output_file_has_keys;
    names_with_output_file = add_names alias wsi l.names_with_output_file;
    output_file_map = put alias (or_empty (find alias l.output_file_map)) l.output_file_map;
  })
]

-- `append(filekeyslist[:0], filekeyslist[snameindex+1:]...)`.
pub forget_key : Text → List Text → List Text
forget_key sname keys = elim (contains keys sname) [ negsuc n ↦ keys | pos i ↦ drop (i + 1) keys ]

-- The three steps of a round of `EmptyGroupWatchs`.
pub forget_sname : Text → Text → Text → Map (Map (List Text)) → Map (Map (List Text))
unfolding forget_key
forget_sname alias sname name names = elim (find name names) [
  | none ↦ names
  | some files ↦ elim (find alias files) [
    | none ↦ names
    | some keys ↦ put name (put alias (forget_key sname keys) files) names
  ]
]

pub forget_alias : Text → Text → Map (Map (List Text)) → Map (Map (List Text))
forget_alias alias name names = elim (find name names) [
  | none ↦ names
  | some files ↦
      if is_empty (or_nil (find alias files)) then put name (remove alias files) names else names
]

pub forget_name : Text → Map (Map (List Text)) → Map (Map (List Text))
forget_name name names = if is_empty (or_empty (find name names)) then remove name names else names

-- The loop of `EmptyGroupWatchs`; `RemoveWatch` is called for a name that no file is left for.
pub forget_all :
    Text → Map WatchServerInfo → Map (Map (List Text)) → Map (Map (List Text)) × List Text
unfolding forget_sname forget_alias forget_name
forget_all alias [] names = (names, [])
forget_all alias ((sname, watch) ∷ group) names =
    let left = forget_alias alias watch.name (forget_sname alias sname watch.name names) in
    let (last, unwatched) = forget_all alias group (forget_name watch.name left) in
    (last, if is_empty (or_empty (find watch.name left)) then watch.name ∷ unwatched else unwatched)

-- What `EmptyGroupWatchs` does to the maps, and the names it calls `RemoveWatch` for: `end_group`.
unfoldable pub empty_group : Text → Listener → Listener × List Text
unfolding forget_all
empty_group alias l =
    let cleared = record l { output_file_map = remove alias l.output_file_map } in
    elim (find alias l.output_file_has_keys) [
      | none ↦ (cleared, [])
      | some group ↦
          let (names, unwatched) = forget_all alias group l.names_with_output_file in
          (
            record cleared {
              output_file_has_keys = remove alias l.output_file_has_keys;
              names_with_output_file = names;
            },
            unwatched,
          )
    ]
