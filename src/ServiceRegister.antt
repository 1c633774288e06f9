-- ===== src/ServiceRegister.antt =====
-- components/service_register: service.go and register.go, and the calls of the etcd client that
-- etcd.go makes. A context and a channel are their numbers, a lease and a watcher the number under
-- which the client made them, and a duration is in nanoseconds.
pub mod Options
pub mod Closing
pub mod Registered
pub mod Tests
use j7f.Base.{
  ℕ, ◌+◌, ◌*◌, Bool, true, false, List, [], ◌∷◌, ◌++◌, Option, none, some, Text, same_text, codes,
  if◌then◌else◌, suc, ◌/◌,
}
use j7f.Base.Int.{ℤ, pos, negsuc, leb_ℤ, ◌*ℤ◌, wrap_i64, sub_ℕ}
use j7f.Base.Maps.{Map, put}

pub record TtlOption : Type 0 where
  pub heartbeat : ℤ
  pub ttl : ℤ

abbrev pub second : ℕ
second = 1000000000

abbrev pub min_heart_beat_time : ℤ
min_heart_beat_time = pos 500000000

pub new_ttl_option : ℤ → ℤ → TtlOption
new_ttl_option heartbeat ttl =
    let beat = if leb_ℤ heartbeat min_heart_beat_time then min_heart_beat_time else heartbeat in
    let live = if leb_ℤ ttl beat then wrap_i64 (pos 3 *ℤ beat) else ttl in
    record { heartbeat = beat; ttl = live }

-- `int64(d.Seconds())`, for a duration whose seconds a float64 holds with their nanoseconds.
abbrev pub whole_seconds : ℤ → ℤ
whole_seconds (pos n) = pos (n / second)
whole_seconds (negsuc n) = sub_ℕ 0 (suc n / second)

pub record Service : Type 0 where
  pub key : Text
  pub value : Text
  pub ttl : Option TtlOption

pub record EtcdCli : Type 0 where
  pub ctx : Option ℕ
  pub lease_id : ℤ
  pub leaser : Option ℕ
  pub watcher : Option ℕ
  pub hbch : Option ℕ
  pub leasers_made : ℕ
  pub watchers_made : ℕ

abbrev pub new_etcd : EtcdCli
new_etcd = record {
  ctx = none;
  lease_id = pos 0;
  leaser = none;
  watcher = none;
  hbch = none;
  leasers_made = 0;
  watchers_made = 0;
}

-- The calls of the client.
pub data EtcdCall : Type 0 where
  new_leaser close_leaser new_watcher close_watcher : ℕ → EtcdCall
  grant : ℕ → Option ℕ → ℤ → EtcdCall
  put_key : Option ℕ → Text → Text → ℤ → EtcdCall
  keep_alive : ℕ → Option ℕ → ℤ → EtcdCall
  delete_key : Option ℕ → Text → EtcdCall

-- What etcd answers in one registration; none is a nil error.
pub record Answers : Type 0 where
  pub leaser_close : Option Text
  pub watcher_close : Option Text
  pub granted : ℤ
  pub grant_error : Option Text
  pub put_error : Option Text
  pub channel : Option ℕ
  pub keep_alive_error : Option Text
  pub delete_error : Option Text

-- What a call leaves: the client, the service, the calls made and the error.
pub record Outcome : Type 0 where
  pub cli : EtcdCli
  pub service : Service
  pub made : List EtcdCall
  pub error : Option Text

abbrev pub default_ttl : TtlOption
unfolding new_ttl_option
default_ttl = new_ttl_option (pos (3 * second)) (pos (10 * second))

abbrev pub with_ttl : Service → Service
with_ttl s = elim s.ttl [ none ↦ record s { ttl = some default_ttl } | some t ↦ s ]

abbrev pub ttl_of : Service → TtlOption
ttl_of s = elim s.ttl [ none ↦ default_ttl | some t ↦ t ]

-- `Register` from the new watcher on; `made` are the calls so far and `n` is the leaser.
pub register_lease : Answers → ℕ → Service → EtcdCli → ℕ → List EtcdCall → Outcome
register_lease a ctx s e n made =
    let on = record e { ctx = some ctx } in
    let granting = made ++ grant n (some ctx) (whole_seconds (ttl_of s).ttl) ∷ [] in
    let leased = record on { lease_id = a.granted } in
    let putting = granting ++ put_key (some ctx) s.key s.value a.granted ∷ [] in
    let keeping = putting ++ keep_alive n (some ctx) a.granted ∷ [] in
    elim a.grant_error [
      | some err ↦ record { cli = on; service = with_ttl s; made = granting; error = some err }
      | none ↦ elim a.put_error [
        | some err ↦ record { cli = leased; service = with_ttl s; made = putting; error = some err }
        | none ↦ record {
          cli = record leased { hbch = a.channel };
          service = with_ttl s;
          made = keeping;
          error = a.keep_alive_error;
        }
      ]
    ]

abbrev pub close_old_watcher : EtcdCli → List EtcdCall
close_old_watcher e = elim e.watcher [ none ↦ [] | some w ↦ close_watcher w ∷ [] ]

abbrev pub close_old_leaser : EtcdCli → List EtcdCall
close_old_leaser e = elim e.leaser [ none ↦ [] | some l ↦ close_leaser l ∷ [] ]

abbrev pub asked : Option ℕ → Option Text → Option Text
asked none err = none
asked (some n) err = err

pub register_watcher : Answers → ℕ → Service → EtcdCli → ℕ → List EtcdCall → Outcome
unfolding register_lease
register_watcher a ctx s e n made =
    let w = e.watchers_made in
    let closing = made ++ close_old_watcher e in
    elim (asked e.watcher a.watcher_close) [
      | some err ↦ record { cli = e; service = s; made = closing; error = some err }
      | none ↦
          register_lease a ctx s (record e { watcher = some w; watchers_made = w + 1 }) n
            (closing ++ new_watcher w ∷ [])
    ]

pub register : Answers → ℕ → Service → EtcdCli → Outcome
unfolding register_watcher
register a ctx s e =
    let n = e.leasers_made in
    let closing = close_old_leaser e in
    elim (asked e.leaser a.leaser_close) [
      | some err ↦ record { cli = e; service = s; made = closing; error = some err }
      | none ↦
          register_watcher a ctx s (record e { leaser = some n; leasers_made = n + 1 }) n
            (closing ++ new_leaser n ∷ [])
    ]

-- Registrations one after the other.
abbrev pub Registration : Type 0
Registration = Answers × ℕ × Service

pub registrations : List Registration → EtcdCli → EtcdCli × List EtcdCall
unfolding register
registrations [] e = (e, [])
registrations ((a, ctx, s) ∷ rs) e =
    let out = register a ctx s e in
    let (last, made) = registrations rs out.cli in (last, out.made ++ made)

-- The deferred `close` of `DeRegister`; the client keeps both.
abbrev pub close : EtcdCli → List EtcdCall
close e = close_old_leaser e ++ close_old_watcher e

pub deregister : Answers → Service → EtcdCli → Outcome
deregister a s e =
    if same_text s.key []
    then record { cli = e; service = s; made = close e; error = some (codes "no key provided") }
    else record {
      cli = e;
      service = s;
      made = delete_key e.ctx s.key ∷ close e;
      error = a.delete_error;
    }

-- `RegisterOpts`, over the etcd client; its context is `context.Background()`.
pub record RegisterOpts : Type 0 where
  pub register_data : Service
  pub register_func : EtcdCli

abbrev pub background : ℕ
background = 0

register_opts : Answers → RegisterOpts → Outcome
unfolding register
register_opts a r = register a background r.register_data r.register_func

pub deregister_opts : Answers → RegisterOpts → Outcome
unfolding deregister
deregister_opts a r = deregister a r.register_data r.register_func

-- A node and its services.
pub record ServiceInfo : Type 0 where
  pub methods : List Text
  pub version : Text
  pub metadata : Map Text

pub record Node : Type 0 where
  pub node_id : Text
  pub services : Map ServiceInfo
  pub address : Text
  pub port : ℤ
  pub metadata : Map Text
  pub ip : Text
  pub version : Text

pub new_node : Text → Text → Text → Text → ℤ → Map Text → Node
new_node node_id address ip version port metadata = record {
  node_id = node_id;
  services = [];
  address = address;
  port = port;
  metadata = metadata;
  ip = ip;
  version = version;
}

set_services : Text → List ServiceInfo → Node → Node
set_services key [] n = n
set_services key (s ∷ ss) n = set_services key ss (record n { services = put key s n.services })
