-- ===== src/EtcdListen/Watcher/Delivered.antt =====
-- From the keys and values of etcd to what a file is given.
use j7f.Base.{◌≡◌, ap, sym, ◌∙◌, subst, Bool, List, [], ◌∷◌, Option, none, some, Text, All}
use j7f.Base.Maps.{Map, find, entry_at}
use j7f.EtcdListen.{
  WatchServerInfo, WriteServerInfo, NodeInfo, Listener, Event, set, set_ok, empty, create, modify,
  delete,
}
use j7f.EtcdListen.Exports.{entry_or_empty}
use j7f.EtcdListen.Exports.Named.{watched_by}
use j7f.EtcdListen.Settings.Distinct.{
  AreDistinct, change_settings-AreDistinct, server_at, exported_as, server_at-servers_for,
}
use j7f.EtcdListen.Watcher.{KeyValue, Arrival, watch, handle_all}
use j7f.EtcdListen.Watcher.Exported.{Watches}
use j7f.EtcdListen.Watcher.Refines.{
  store_of, store_after, view, IsReadable, AreOfEtcd, IsRefined, settle, settle_all,
  handle_all-settings, watch-IsRefined,
}
use j7f.EtcdListen.Watcher.Settled.{watch-IsSettled}

abbrev Settings : Type 0
Settings = Map (Map NodeInfo)

settle-AreDistinct :
    (parse : Text → Option NodeInfo) (e : Event) (settings : Settings)
    → AreDistinct settings
    → AreDistinct (settle parse e settings)
settle-AreDistinct parse (set v k value) settings h =
    change_settings-AreDistinct parse v k settings h value
settle-AreDistinct parse (set_ok v) settings h = h
settle-AreDistinct parse (create v k value) settings h =
    change_settings-AreDistinct parse v k settings h value
settle-AreDistinct parse (modify v k value) settings h =
    change_settings-AreDistinct parse v k settings h value
settle-AreDistinct parse (delete v k) settings h =
    change_settings-AreDistinct parse v k settings h []
settle-AreDistinct parse (empty v) settings h = change_settings-AreDistinct parse v [] settings h []

settle_all-AreDistinct :
    (parse : Text → Option NodeInfo) (es : List Event) (settings : Settings)
    → AreDistinct settings
    → AreDistinct (settle_all parse es settings)
settle_all-AreDistinct parse [] settings h = h
settle_all-AreDistinct parse (e ∷ es) settings h =
    settle_all-AreDistinct parse es (settle parse e settings)
      (settle-AreDistinct parse e settings h)

-- The server of a node in the output of a file under a key.
abbrev pub delivered : Text → Option (List WriteServerInfo) → Option WriteServerInfo
delivered node none = none
delivered node (some servers) = server_at node servers

abbrev pub config : Text → Text → WatchServerInfo
config w range_ = record { name = w; version = range_ }

module _ (parse : Text → Option NodeInfo) (in_range : Text → Text → Bool)
    (w range_ file key : Text) where
  -- Where a file watches for a name by a key with a range, no node is known under the name, no
  -- node twice under any, and all keys and values that etcd answers and tells of are readable:
  -- after the calls that `watch` makes of the listener, up to the end of the watch, the file's
  -- output under the key has for every node exactly the server that its value in etcd stands
  -- for, if there is one and its version is in the range, and none otherwise.
  pub watch-delivered :
      (node : Text) (kvs : List KeyValue) (arrivals : List Arrival) (l : Listener)
      → Watches w file key (config w range_) (watched_by l)
      → AreDistinct l.etcd_settings
      → IsRefined parse w [] l.etcd_settings
      → All (IsReadable parse) kvs
      → AreOfEtcd parse arrivals
      → delivered node (
          entry_at file key
            (handle_all parse in_range (watch w (some kvs) arrivals).0 l).output_file_map)
        ≡ exported_as in_range range_ node
            (view parse (find node (store_after arrivals (store_of kvs []))))
  watch-delivered node kvs arrivals l h d r k a =
      let es = (watch w (some kvs) arrivals).0 in
      let m = handle_all parse in_range es l in
      let settled = watch-IsSettled parse in_range w file key (config w range_) kvs arrivals l h in
      let distinct : AreDistinct m.etcd_settings =
        subst AreDistinct (sym (handle_all-settings parse in_range es l))
          (settle_all-AreDistinct parse es l.etcd_settings d) in
      let refined = watch-IsRefined parse in_range w kvs arrivals l k a r in
      ap (delivered node) settled
      ∙ (server_at-servers_for in_range range_ node w m.etcd_settings distinct
          ∙ ap (exported_as in_range range_ node)
              (sym (entry_or_empty w node m.etcd_settings) ∙ refined node))
