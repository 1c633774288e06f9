-- ===== src/EtcdListen/Watcher.antt =====
-- util/etcd_listen/etcd_watcher.go: the watches of keys of etcd. A context is its number, a `cancel` is the
-- number of the context it ends, and the goroutines of `watch` are the pairs of a key and a context.
pub mod Delivered
pub mod Exported
pub mod Handlers
pub mod Live
pub mod Refines
pub mod Settled
pub mod Tests
use j7f.Base.{
  ℕ, ◌+◌, Bool, true, false, List, [], ◌∷◌, ◌++◌, Option, none, some, Text, same_text,
  if◌then◌else◌, ◌==◌, ◌&&◌, map,
}
use j7f.Base.Maps.{Map, find, put, remove}
use j7f.EtcdListen.{
  Event, set, set_ok, empty, create, modify, delete, NodeInfo, WriteServerInfo, Listener, handle,
}

pub record EtcdWatcher : Type 0 where
  pub close_handler : Map ℕ
  pub contexts : ℕ
  pub cancelled : List ℕ
  pub watches : List (Text × ℕ)
  pub has_cli : Bool

abbrev pub new_etcd_watcher : EtcdWatcher
new_etcd_watcher = record {
  close_handler = [];
  contexts = 0;
  cancelled = [];
  watches = [];
  has_cli = true;
}

pub add_watch : Text → EtcdWatcher → EtcdWatcher × Bool
add_watch key mgr = elim (find key mgr.close_handler) [
  | some cancel ↦ (mgr, false)
  | none ↦
      let ctx = mgr.contexts in
      (
        record mgr {
          close_handler = put key ctx mgr.close_handler;
          contexts = ctx + 1;
          watches = mgr.watches ++ (key, ctx) ∷ [];
        },
        true,
      )
]

pub remove_watch : Text → EtcdWatcher → EtcdWatcher × Bool
remove_watch key mgr = elim (find key mgr.close_handler) [
  | none ↦ (mgr, false)
  | some cancel ↦ (
    record mgr { close_handler = remove key mgr.close_handler; cancelled = cancel ∷ mgr.cancelled },
    true,
  )
]

pub cancels : Map ℕ → List ℕ
cancels [] = []
cancels ((key, cancel) ∷ handlers) = cancel ∷ cancels handlers

pub clear_watch : EtcdWatcher → EtcdWatcher
unfolding cancels
clear_watch mgr = record mgr {
  close_handler = [];
  cancelled = cancels mgr.close_handler ++ mgr.cancelled;
}

-- `wg.Wait` returns when every goroutine of `watch` has.
pub close : Bool → EtcdWatcher → EtcdWatcher
unfolding clear_watch
close wait mgr =
    let cleared = clear_watch mgr in
    record cleared { watches = if wait then [] else cleared.watches; has_cli = false }

-- The goroutine of the context returns, with `wg.Done`; the handler of its key stays.
pub without : ℕ → List (Text × ℕ) → List (Text × ℕ)
without ctx [] = []
without ctx ((key, c) ∷ watches) =
    let rest = without ctx watches in if c == ctx then rest else (key, c) ∷ rest

pub watch_returns : ℕ → EtcdWatcher → EtcdWatcher
unfolding without
watch_returns ctx mgr = record mgr { watches = without ctx mgr.watches }

-- What happens to a watcher, in the order of its lock.
pub data Call : Type 0 where
  add_key remove_key : Text → Call
  clear_all : Call
  close_all : Bool → Call
  returned : ℕ → Call

pub call : Call → EtcdWatcher → EtcdWatcher
unfolding add_watch remove_watch close watch_returns
call (add_key key) mgr = (add_watch key mgr).0
call (remove_key key) mgr = (remove_watch key mgr).0
call clear_all mgr = clear_watch mgr
call (close_all wait) mgr = close wait mgr
call (returned ctx) mgr = watch_returns ctx mgr

pub calls : List Call → EtcdWatcher → EtcdWatcher
unfolding call
calls [] mgr = mgr
calls (c ∷ cs) mgr = calls cs (call c mgr)

pub record KeyValue : Type 0 where
  pub key : Text
  pub value : Text

-- An event of etcd's client, with what its methods answer: `IsCreate`, `IsModify` and the test
-- for a type DELETE.
pub record EtcdEvent : Type 0 where
  pub kv : KeyValue
  pub is_create : Bool
  pub is_modify : Bool
  pub is_delete : Bool

-- What the `select` of `watch` takes: the end of the context or a response of etcd, which is an
-- error or a list of events.
pub data Arrival : Type 0 where
  ctx_done failure : Arrival
  response : List EtcdEvent → Arrival

pub data WatchEnd : Type 0 where
  get_failed ended_by_ctx ended_by_err : WatchEnd
  still_waiting : WatchEnd

pub event_calls : Text → EtcdEvent → List Event
event_calls key ev =
    if ev.is_create
    then create key ev.kv.key ev.kv.value ∷ []
    else if ev.is_modify
    then modify key ev.kv.key ev.kv.value ∷ []
    else if ev.is_delete
    then delete key ev.kv.key ∷ []
    else []

pub events_calls : Text → List EtcdEvent → List Event
unfolding event_calls
events_calls key [] = []
events_calls key (ev ∷ evs) = event_calls key ev ++ events_calls key evs

-- The `for` with the `select`: the calls of the listener, and how it ends.
pub watch_loop : Text → List Arrival → List Event × WatchEnd
unfolding events_calls
watch_loop key [] = ([], still_waiting)
watch_loop key (ctx_done ∷ arrivals) = ([], ended_by_ctx)
watch_loop key (failure ∷ arrivals) = ([], ended_by_err)
watch_loop key (response evs ∷ arrivals) =
    let (events, end) = watch_loop key arrivals in (events_calls key evs ++ events, end)

pub set_calls : Text → List KeyValue → List Event
set_calls key [] = []
set_calls key (kv ∷ kvs) = set key kv.key kv.value ∷ set_calls key kvs

pub get_calls : Text → List KeyValue → List Event
unfolding set_calls
get_calls key [] = empty key ∷ []
get_calls key (kv ∷ kvs) = set_calls key (kv ∷ kvs) ++ set_ok key ∷ []

-- `answer` is what `cli.Get` gives, none for an error.
pub watch : Text → Option (List KeyValue) → List Arrival → List Event × WatchEnd
unfolding get_calls watch_loop
watch key none arrivals = ([], get_failed)
watch key (some kvs) arrivals =
    let (events, end) = watch_loop key arrivals in (get_calls key kvs ++ events, end)

-- The calls reach the listener of etcd_listen.go one after the other.
module _ (parse : Text → Option NodeInfo) (in_range : Text → Text → Bool) where
  pub handle_all : List Event → Listener → Listener
  unfolding handle
  handle_all [] l = l
  handle_all (e ∷ es) l = handle_all es (handle parse in_range e l).0
