-- ===== src/EtcdListen/Listening/Tests.antt =====
-- A group that is watched for, and one that ends before `Start`.
use j7f.Base.{◌≡◌, ◌≤◌, refl, Bool, true, List, [], ◌∷◌, Option, none, some, Text, codes, length}
use j7f.Base.Maps.{Map, find, put, remove, entry_at}
use j7f.Util.{contains}
use j7f.EtcdListen.{NodeInfo, WatchServerInfo}
use j7f.EtcdListen.Watcher.{EtcdWatcher}
use j7f.EtcdListen.Watcher.Handlers.{has_handler}
use j7f.EtcdListen.Watcher.Live.{live}
use j7f.EtcdListen.Listening.{
  Listening, nothing_yet, reload_etcd_watch, Step, begins, ends, starts, steps, begin_group,
  end_group,
}
use j7f.EtcdListen.Listening.Covered.{one_if, reload_watches}
use j7f.EtcdListen.Listening.Handled.{is_named}
use j7f.EtcdListen.Listening.Undone.{end_group-begin_group}
use j7f.EtcdListen.Groups.{add_group}

abbrev no_node : Text → Option NodeInfo
no_node t = none

abbrev any_range : Text → Text → Bool
any_range v r = true

abbrev one_name : Map WatchServerInfo
one_name = (codes "k", record { name = codes "/grpc"; version = codes ">1" }) ∷ []

abbrev some_steps : List Step
some_steps = starts true true ∷ begins one_name (codes "f") ∷ []

abbrev watched : Listening
watched = record {
  listener = record {
    output_file_has_keys = (codes "f", one_name) ∷ [];
    names_with_output_file = (codes "/grpc", (codes "f", codes "k" ∷ []) ∷ []) ∷ [];
    output_file_map = (codes "f", []) ∷ [];
    etcd_settings = [];
  };
  etcdw =
      some
        (record { close_handler = []; contexts = 0; cancelled = []; watches = []; has_cli = true });
  lsio = true;
}

some_steps_run : steps no_node any_range some_steps nothing_yet ≡ some watched
unfolding steps find put
some_steps_run = refl

ends_before_start :
    steps no_node any_range (begins one_name (codes "f") ∷ ends (codes "f") ∷ []) nothing_yet ≡ none
unfolding steps find put remove contains
ends_before_start = refl

abbrev unwatched : EtcdWatcher
unwatched = record {
  close_handler = [];
  contexts = 0;
  cancelled = [];
  watches = [];
  has_cli = true;
}

reload_watches_example :
    (length (live (codes "/grpc") unwatched.cancelled unwatched.watches)
      ≤ one_if (is_named (codes "/grpc") watched.listener.names_with_output_file))
    × (m : EtcdWatcher) × ((reload_etcd_watch watched).etcdw ≡ some m)
    × (has_handler (codes "/grpc") m
        ≡ is_named (codes "/grpc") watched.listener.names_with_output_file)
    × (length (live (codes "/grpc") m.cancelled m.watches)
        ≤ one_if (is_named (codes "/grpc") watched.listener.names_with_output_file))
reload_watches_example =
    reload_watches no_node any_range some_steps watched unwatched (codes "/grpc") some_steps_run
      refl

abbrev started : Listening
started = record nothing_yet { etcdw = some unwatched; lsio = true }

begins_run : add_group one_name (codes "f") started.listener ≡ some watched.listener
unfolding add_group find put
begins_run = refl

no_entries : (k : Text) → entry_at k (codes "f") started.listener.names_with_output_file ≡ none
unfolding find
no_entries k = refl

end_group-begin_group_example :
    (q : Listening) × (end_group (codes "f") (begin_group one_name (codes "f") started) ≡ some q)
    × (entry_at (codes "/grpc") (codes "f") q.listener.names_with_output_file
        ≡ entry_at (codes "/grpc") (codes "f") started.listener.names_with_output_file)
    × (find (codes "f") q.listener.output_file_has_keys
        ≡ find (codes "f") started.listener.output_file_has_keys)
end_group-begin_group_example =
    end_group-begin_group one_name (codes "f") started unwatched watched.listener (codes "/grpc")
      (codes "f") refl ((unfold find in refl), tt) no_entries begins_run
