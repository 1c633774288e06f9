-- ===== src/EtcdListen/Watcher/Tests.antt =====
-- A watch of a prefix with a key at first, and another that comes and goes.
use j7f.Base.{◌≡◌, ◌≤◌, refl, true, false, List, [], ◌∷◌, Option, some, Text, codes, length}
use j7f.Base.Maps.{find, put, entry_at}
use j7f.EtcdListen.Exports.Named.{watched_by}
use j7f.EtcdListen.Settings.Distinct.{exported_as}
use j7f.EtcdListen.Watcher.Exported.{Watches}
use j7f.EtcdListen.Watcher.Delivered.{config, delivered, watch-delivered}
use j7f.EtcdListen.{NodeInfo, Listener}
use j7f.EtcdListen.Watcher.{
  KeyValue, EtcdEvent, Arrival, ctx_done, response, watch, handle_all, new_etcd_watcher, add_watch,
  remove_watch, clear_watch, watch_returns, Call, add_key, remove_key, calls,
}
use j7f.EtcdListen.Watcher.Live.{live, at_most_one, failed_watch}
use j7f.EtcdListen.Watcher.Refines.{view, IsRefined, store_after, store_of, watch-IsRefined}

abbrev one : KeyValue
one = record { key = codes "/grpc/1"; value = codes "{}" }

abbrev two : KeyValue
two = record { key = codes "/grpc/2"; value = codes "{}" }

abbrev comes : EtcdEvent
comes = record { kv = two; is_create = true; is_modify = false; is_delete = false }

abbrev goes : EtcdEvent
goes = record { kv = one; is_create = false; is_modify = false; is_delete = true }

abbrev some_arrivals : List Arrival
some_arrivals = response (comes ∷ goes ∷ []) ∷ ctx_done ∷ []

abbrev some_node : NodeInfo
some_node = record { ip = codes "1"; port = 80; version = codes "1.2.0" }

abbrev parse_node : Text → Option NodeInfo
parse_node t = some some_node

abbrev knows_none : Listener
knows_none = record {
  output_file_has_keys = [];
  names_with_output_file = [];
  output_file_map = [];
  etcd_settings = [];
}

watch-IsRefined_example :
    IsRefined parse_node
      (codes "/grpc")
      (store_after some_arrivals (store_of (one ∷ []) []))
      (handle_all parse_node
        (λ v r. true)
        (watch (codes "/grpc") (some (one ∷ [])) some_arrivals).0
        knows_none).etcd_settings
watch-IsRefined_example =
    watch-IsRefined parse_node (λ v r. true) (codes "/grpc") (one ∷ []) some_arrivals knows_none
      ((refl, refl), tt) ((((refl, refl), refl), (((refl, refl), refl), tt)), tt)
      (λ j. unfold find in refl)

abbrev some_calls : List Call
some_calls =
    add_key (codes "a") ∷ add_key (codes "a") ∷ remove_key (codes "a") ∷ add_key (codes "a") ∷ []

at_most_one_example :
    (length (
        live
          (codes "a")
          (calls some_calls new_etcd_watcher).cancelled
          (calls some_calls new_etcd_watcher).watches)
      ≤ 1)
    × (live
          (codes "a")
          (clear_watch (calls some_calls new_etcd_watcher)).cancelled
          (clear_watch (calls some_calls new_etcd_watcher)).watches
        ≡ [])
at_most_one_example = at_most_one some_calls (codes "a")

abbrev one_call : List Call
one_call = add_key (codes "a") ∷ []

one_handler : find (codes "a") (calls one_call new_etcd_watcher).close_handler ≡ some 0
unfolding calls find put
one_handler = refl

failed_watch_example :
    let after = watch_returns 0 (calls one_call new_etcd_watcher) in
    (live (codes "a") after.cancelled after.watches ≡ [])
    × (add_watch (codes "a") after ≡ (after, false))
    × ((add_watch (codes "a") (remove_watch (codes "a") after).0).1 ≡ true)
failed_watch_example = failed_watch (codes "a") 0 one_call one_handler

-- A file that watches for the prefix.
abbrev waiting : Listener
waiting = record {
  output_file_has_keys =
      (codes "f", (codes "k", record { name = codes "/grpc"; version = codes ">1" }) ∷ []) ∷ [];
  names_with_output_file = (codes "/grpc", (codes "f", codes "k" ∷ []) ∷ []) ∷ [];
  output_file_map = (codes "f", []) ∷ [];
  etcd_settings = [];
}

waiting-Watches :
    Watches
      (codes "/grpc")
      (codes "f")
      (codes "k")
      (config (codes "/grpc") (codes ">1"))
      (watched_by waiting)
unfolding find
waiting-Watches = record {
  files = (codes "f", codes "k" ∷ []) ∷ [];
  keys = codes "k" ∷ [];
  configs = (codes "k", record { name = codes "/grpc"; version = codes ">1" }) ∷ [];
  named = refl;
  listed = refl;
  wanted = refl;
  grouped = refl;
  configured = refl;
}

watch-delivered_example :
    delivered (codes "/grpc/2") (
      entry_at
        (codes "f")
        (codes "k")
        (handle_all parse_node
          (λ v r. true)
          (watch (codes "/grpc") (some (one ∷ [])) some_arrivals).0
          waiting).output_file_map)
    ≡ exported_as
        (λ v r. true)
        (codes ">1")
        (codes "/grpc/2")
        (view parse_node
          (find (codes "/grpc/2") (store_after some_arrivals (store_of (one ∷ []) []))))
watch-delivered_example =
    watch-delivered parse_node (λ v r. true) (codes "/grpc") (codes ">1") (codes "f") (codes "k")
      (codes "/grpc/2") (one ∷ []) some_arrivals waiting waiting-Watches (λ u. unfold find in tt)
      (λ j. unfold find in refl) ((refl, refl), tt)
      ((((refl, refl), refl), (((refl, refl), refl), tt)), tt)
