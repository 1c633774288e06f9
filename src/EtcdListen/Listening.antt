-- ===== src/EtcdListen/Listening.antt =====
-- util/etcd_listen/etcd_listen.go: the groups, the watcher and the listener together, with `Start` and the
-- reloads. Whether the client of etcd is made, and what it tells of, is given; `none` is a panic.
pub mod Covered
pub mod Handled
pub mod Tests
pub mod Undone
use j7f.Base.{
  ℕ, Bool, true, false, ◌||◌, List, [], ◌∷◌, ◌++◌, Option, none, some, Text, if◌then◌else◌,
}
use j7f.Base.Maps.{Map}
use j7f.EtcdListen.{
  Listener, NodeInfo, WatchServerInfo, WriteServerInfo, Event, is_empty, handle, export_watchkey,
}
use j7f.EtcdListen.Groups.{add_group, empty_group}
use j7f.EtcdListen.Watcher.{EtcdWatcher, new_etcd_watcher, add_watch, remove_watch, watch_returns}

-- The package's variables: `lsio` says whether there is one to export to.
pub record Listening : Type 0 where
  pub listener : Listener
  pub etcdw : Option EtcdWatcher
  pub lsio : Bool

abbrev pub nothing_yet : Listening
nothing_yet = record {
  listener = record {
    output_file_has_keys = [];
    names_with_output_file = [];
    output_file_map = [];
    etcd_settings = [];
  };
  etcdw = none;
  lsio = false;
}

abbrev pub map_keys {ℓ} : {A : Type ℓ} → Map A → List Text
map_keys [] = []
map_keys ((key, a) ∷ m) = key ∷ map_keys m

pub add_watches : List Text → EtcdWatcher → EtcdWatcher
add_watches [] mgr = mgr
add_watches (key ∷ keys) mgr = add_watches keys (add_watch key mgr).0

pub remove_watches : List Text → EtcdWatcher → EtcdWatcher
remove_watches [] mgr = mgr
remove_watches (key ∷ keys) mgr = remove_watches keys (remove_watch key mgr).0

-- `ReloadEtcdWatch`.
pub reload_etcd_watch : Listening → Listening
unfolding add_watches
reload_etcd_watch p = elim p.etcdw [
  | none ↦ p
  | some mgr ↦ record p {
    etcdw = some (add_watches (map_keys p.listener.names_with_output_file) mgr);
  }
]

pub data StartEnd : Type 0 where
  returns_nil waits_for_ever : StartEnd

-- `Start`, up to its wait. What a watcher from before watches goes on.
pub start : Bool → Bool → Listening → Listening × StartEnd
unfolding reload_etcd_watch
start made listen_io p =
    if made
    then (
      reload_etcd_watch (record p { lsio = listen_io; etcdw = some new_etcd_watcher }),
      waits_for_ever,
    )
    else (record p { lsio = listen_io; etcdw = none }, returns_nil)

-- `EmptyGroupWatchs` with its calls of `RemoveWatch`, which read a field of the watcher.
pub end_group : Text → Listening → Option Listening
unfolding empty_group remove_watches
end_group alias p =
    let (l, unwatched) = empty_group alias p.listener in
    elim p.etcdw [
      | none ↦ if is_empty unwatched then some (record p { listener = l }) else none
      | some mgr ↦ some (record p { listener = l; etcdw = some (remove_watches unwatched mgr) })
    ]

-- `AddGroupWatchs`, where an error changes nothing.
pub begin_group : Map WatchServerInfo → Text → Listening → Listening
unfolding add_group
begin_group wsi alias p = elim (add_group wsi alias p.listener) [
  | none ↦ p
  | some l ↦ record p { listener = l }
]

abbrev pub Exported : Type 0
Exported = List (Text × Map (List WriteServerInfo))

-- A call of `Export` needs the one to export to.
pub exported : Listener × Exported → Listening → Option (Listening × Exported)
exported (l, out) p = if p.lsio || is_empty out then some (record p { listener = l }, out) else none

pub export_all : (Text → Text → Bool) → List Text → Listener → Listener × Exported
unfolding export_watchkey
export_all in_range [] l = (l, [])
export_all in_range (key ∷ keys) l =
    let (m, first) = export_watchkey in_range key l in
    let (last, more) = export_all in_range keys m in (last, first ++ more)

-- `ReloadExport`.
pub reload_export : (Text → Text → Bool) → Listening → Option (Listening × Exported)
unfolding exported export_all
reload_export in_range p =
    exported (export_all in_range (map_keys p.listener.names_with_output_file) p.listener) p

-- What happens to the variables: the calls of the package, those of the watcher's goroutines, and the
-- ends of these.
pub data Step : Type 0 where
  begins : Map WatchServerInfo → Text → Step
  ends : Text → Step
  starts : Bool → Bool → Step
  reloads exports : Step
  told : Event → Step
  returns : ℕ → Step

abbrev pub state_of : Option (Listening × Exported) → Option Listening
state_of none = none
state_of (some (p, out)) = some p

module _ (parse : Text → Option NodeInfo) (in_range : Text → Text → Bool) where
  pub step : Step → Listening → Option Listening
  unfolding start end_group begin_group exported reload_export handle
  step (begins wsi alias) p = some (begin_group wsi alias p)
  step (ends alias) p = end_group alias p
  step (starts made listen_io) p = some (start made listen_io p).0
  step reloads p = some (reload_etcd_watch p)
  step exports p = state_of (reload_export in_range p)
  step (told e) p = state_of (exported (handle parse in_range e p.listener) p)
  step (returns ctx) p = elim p.etcdw [
    | none ↦ some p
    | some mgr ↦ some (record p { etcdw = some (watch_returns ctx mgr) })
  ]

  pub steps : List Step → Listening → Option Listening
  unfolding step
  steps [] p = some p
  steps (s ∷ ss) p = elim (step s p) [ none ↦ none | some q ↦ steps ss q ]
