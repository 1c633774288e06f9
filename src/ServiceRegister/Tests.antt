-- ===== src/ServiceRegister/Tests.antt =====
-- A service that is registered twice and taken back.
use j7f.Base.{[], ◌∷◌, arith, ◌<◌, List, ◌≡◌, none, some, codes}
use j7f.Base.Int.{pos}
use j7f.ServiceRegister.{
  Registration, registrations, new_etcd, Service, Answers, register, EtcdCli, EtcdCall, new_leaser,
  close_leaser, new_watcher, close_watcher, grant, put_key,
}
use j7f.ServiceRegister.Registered.{kept_all, timed, register_lem}

abbrev pub a_service : Service
a_service = record { key = codes "/grpc/1"; value = codes "{}"; ttl = none }

abbrev pub all_well : Answers
all_well = record {
  leaser_close = none;
  watcher_close = none;
  granted = pos 9;
  grant_error = none;
  put_error = none;
  channel = some 1;
  keep_alive_error = none;
  delete_error = none;
}

-- The client of a registration from before, whose key is refused.
abbrev registered : EtcdCli
registered = record {
  ctx = some 3;
  lease_id = pos 8;
  leaser = some 4;
  watcher = some 5;
  hbch = some 6;
  leasers_made = 5;
  watchers_made = 6;
}

abbrev refused : Answers
refused = record all_well { put_error = some (codes "no") }

abbrev refused_calls : List EtcdCall
refused_calls =
    close_leaser 4
    ∷ new_leaser 5
    ∷ close_watcher 5
    ∷ new_watcher 6
    ∷ grant 5 (some 0) (pos 10)
    ∷ put_key (some 0) (codes "/grpc/1") (codes "{}") (pos 9)
    ∷ []

register_lem_example :
    let out = register refused 0 a_service registered in
    (out.made ≡ refused_calls)
    × (out.error ≡ some (codes "no"))
    × (out.cli ≡ kept_all refused refused_calls registered)
    × (out.service ≡ timed a_service)
register_lem_example = register_lem refused 0 a_service registered

abbrev pub twice : List Registration
twice = (all_well, 0, a_service) ∷ (all_well, 0, a_service) ∷ []

pub two_made :
    (0 < (registrations twice new_etcd).0.leasers_made)
    × (1 < (registrations twice new_etcd).0.watchers_made)
unfolding registrations register
two_made = (omega arith, omega arith)
