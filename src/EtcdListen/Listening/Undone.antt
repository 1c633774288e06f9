-- ===== src/EtcdListen/Listening/Undone.antt =====
-- A group that begins and ends, with the watcher whose watches are taken off.
use j7f.Base.{◌≡◌, ap, ◌∙◌, none, some, Text, arith}
use j7f.Base.Maps.{HasDistinct, Map, find, entry_at}
use j7f.EtcdListen.{Listener, WatchServerInfo}
use j7f.EtcdListen.Groups.{add_group, empty_group}
use j7f.EtcdListen.Groups.Undone.{empty_group-add_group}
use j7f.EtcdListen.Watcher.{EtcdWatcher}
use j7f.EtcdListen.Listening.{Listening, remove_watches, begin_group, end_group}

begun :
    (wsi : Map WatchServerInfo) (alias : Text) (p : Listening) (m : Listener)
    → add_group wsi alias p.listener ≡ some m
    → begin_group wsi alias p ≡ record p { listener = m }
unfolding begin_group
begun wsi alias p m h = ground arith

ended :
    (alias : Text) (p : Listening) (mgr : EtcdWatcher)
    → p.etcdw ≡ some mgr
    → end_group alias p
      ≡ some (record p {
        listener = (empty_group alias p.listener).0;
        etcdw = some (remove_watches (empty_group alias p.listener).1 mgr);
      })
unfolding end_group
ended alias p mgr h = ground arith

-- Where there is a watcher, a file has no entry under any name and `AddGroupWatchs` takes a
-- group of distinct keys for it: `EmptyGroupWatchs` for the file then does not panic, and after
-- it every entry under every name and the keys of every file are as before both calls.
pub end_group-begin_group :
    (wsi : Map WatchServerInfo) (alias : Text) (p : Listening) (mgr : EtcdWatcher) (m : Listener)
    (n b : Text)
    → p.etcdw ≡ some mgr
    → HasDistinct wsi
    → ((k : Text) → entry_at k alias p.listener.names_with_output_file ≡ none)
    → add_group wsi alias p.listener ≡ some m
    → (q : Listening) × (end_group alias (begin_group wsi alias p) ≡ some q)
      × (entry_at n b q.listener.names_with_output_file
          ≡ entry_at n b p.listener.names_with_output_file)
      × (find b q.listener.output_file_has_keys ≡ find b p.listener.output_file_has_keys)
end_group-begin_group wsi alias p mgr m n b w distinct unknown h =
    let (entry, keys) = empty_group-add_group wsi alias p.listener m distinct unknown h n b in
    let q = record p {
      listener = (empty_group alias m).0;
      etcdw = some (remove_watches (empty_group alias m).1 mgr);
    } in
    (
      q,
      ap (end_group alias) (begun wsi alias p m h) ∙ ended alias (record p { listener = m }) mgr w,
      entry,
      keys,
    )
