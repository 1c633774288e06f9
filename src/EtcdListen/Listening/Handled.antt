-- ===== src/EtcdListen/Listening/Handled.antt =====
-- The handlers that the calls of the package leave, with the files that watch for their keys.
use j7f.Base.{
  ◌≡◌, refl, sym, subst, Bool, true, false, ◌||◌, List, [], ◌∷◌, Option, none, some, Text, arith,
  if◌then◌else◌, Option-cases, inl, inr,
}
use j7f.Base.Maps.{Map, find}
use j7f.EtcdListen.{Listener, WatchServerInfo}
use j7f.EtcdListen.Exports.{has_key}
use j7f.EtcdListen.Groups.{add_group, empty_group}
use j7f.EtcdListen.Groups.Named.{Grows, add_group-Grows, empty_group_gone}
use j7f.EtcdListen.Watcher.{EtcdWatcher, new_etcd_watcher, add_watch, remove_watch}
use j7f.EtcdListen.Watcher.Handlers.{
  has_handler, add_watch_handler, remove_watch_handler, new_etcd_watcher_handler,
}
use j7f.EtcdListen.Watcher.Live.{
  IsGuarded, add-IsGuarded, remove-IsGuarded, new_etcd_watcher-IsGuarded,
}
use j7f.EtcdListen.Listening.{
  Listening, map_keys, add_watches, remove_watches, reload_etcd_watch, start, begin_group,
}

abbrev pub Names : Type 0
Names = Map (Map (List Text))

-- Whether some file watches for a key.
abbrev pub is_named : Text → Names → Bool
is_named key names = elim (find key names) [ none ↦ false | some files ↦ true ]

pub has_key-map_keys :
    (key : Text) (names : Names) → has_key key (map_keys names) ≡ is_named key names
unfolding find
has_key-map_keys key [] = refl
has_key-map_keys key ((k, files) ∷ names) = ground (arith, has_key-map_keys key names)

pub add_watches_handler :
    (key : Text) (keys : List Text) (mgr : EtcdWatcher)
    → has_handler key (add_watches keys mgr) ≡ (has_key key keys || has_handler key mgr)
unfolding add_watches
add_watches_handler key [] mgr = refl
add_watches_handler key (k ∷ keys) mgr =
    ground (arith, add_watches_handler key keys (add_watch k mgr).0, add_watch_handler key k mgr)

remove_watches_handler :
    (key : Text) (keys : List Text) (mgr : EtcdWatcher)
    → has_handler key (remove_watches keys mgr)
      ≡ (if has_key key keys then false else has_handler key mgr)
unfolding remove_watches
remove_watches_handler key [] mgr = refl
remove_watches_handler key (k ∷ keys) mgr =
    ground (
      arith,
      remove_watches_handler key keys (remove_watch k mgr).0,
      remove_watch_handler key k mgr,
    )

pub add_watches-IsGuarded :
    (keys : List Text) (mgr : EtcdWatcher) → IsGuarded mgr → IsGuarded (add_watches keys mgr)
unfolding add_watches
add_watches-IsGuarded [] mgr g = g
add_watches-IsGuarded (k ∷ keys) mgr g = add_watches-IsGuarded keys _ (add-IsGuarded k mgr g)

pub remove_watches-IsGuarded :
    (keys : List Text) (mgr : EtcdWatcher) → IsGuarded mgr → IsGuarded (remove_watches keys mgr)
unfolding remove_watches
remove_watches-IsGuarded [] mgr g = g
remove_watches-IsGuarded (k ∷ keys) mgr g =
    remove_watches-IsGuarded keys _ (remove-IsGuarded k mgr g)

-- Of each key one goroutine is live at most, and a key with a handler is one that a file watches for.
abbrev pub Covers : Names → EtcdWatcher → Type 0
Covers names mgr = (key : Text) → find key names ≡ none → has_handler key mgr ≡ false

abbrev pub IsSound : Names → Option EtcdWatcher → Type 0
IsSound names none = Unit
IsSound names (some mgr) = IsGuarded mgr × Covers names mgr

abbrev pub IsCovered : Listening → Type 0
IsCovered p = IsSound p.listener.names_with_output_file p.etcdw

IsSound-grow :
    (names next : Names) (o : Option EtcdWatcher)
    → ((key : Text) → Grows key names next)
    → IsSound names o
    → IsSound next o
IsSound-grow names next none g s = tt
IsSound-grow names next (some mgr) g s = (s.0, λ key h. s.1 key (g key h))

pub reload-Covers :
    (names : Names) (mgr : EtcdWatcher)
    → Covers names mgr
    → Covers names (add_watches (map_keys names) mgr)
reload-Covers names mgr c key h =
    ground (arith, add_watches_handler key (map_keys names) mgr, has_key-map_keys key names, c key)

pub reload-IsSound :
    (l : Listener) (o : Option EtcdWatcher) (io : Bool)
    → IsSound l.names_with_output_file o
    → IsCovered (reload_etcd_watch (record { listener = l; etcdw = o; lsio = io }))
unfolding reload_etcd_watch
reload-IsSound l none io s = tt
reload-IsSound l (some mgr) io s = (
  add_watches-IsGuarded (map_keys l.names_with_output_file) mgr s.0,
  reload-Covers l.names_with_output_file mgr s.1,
)

pub start-IsCovered : (made io : Bool) (p : Listening) → IsCovered (start made io p).0
unfolding start
start-IsCovered false io p = tt
start-IsCovered true io p =
    reload-IsSound p.listener (some new_etcd_watcher) io
      (new_etcd_watcher-IsGuarded, λ key h. new_etcd_watcher_handler key)

pub begin_group-IsCovered :
    (wsi : Map WatchServerInfo) (alias : Text) (p : Listening)
    → IsCovered p
    → IsCovered (begin_group wsi alias p)
begin_group-IsCovered wsi alias p s = elim (Option-cases (add_group wsi alias p.listener)) [
  | inl e ↦
      let is : begin_group wsi alias p ≡ p = unfold begin_group in ground arith in
      subst IsCovered (sym is) s
  | inr (l, e) ↦
      let is : begin_group wsi alias p ≡ record p { listener = l } =
        unfold begin_group in ground arith in
      subst IsCovered (sym is)
        (IsSound-grow _ _ p.etcdw (λ key. add_group-Grows key wsi alias p.listener l e) s)
]

pub end_group-Covers :
    (alias : Text) (l : Listener) (mgr : EtcdWatcher)
    → Covers l.names_with_output_file mgr
    → Covers
        (empty_group alias l).0.names_with_output_file
        (remove_watches (empty_group alias l).1 mgr)
end_group-Covers alias l mgr c key h =
    let removed = remove_watches_handler key (empty_group alias l).1 mgr in
    elim (empty_group_gone key alias l h) [
      | inl e ↦ ground (arith, removed, c key e)
      | inr e ↦ ground (arith, removed)
    ]
