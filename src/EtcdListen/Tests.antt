-- ===== src/EtcdListen/Tests.antt =====
-- A watched service with one node.
use j7f.Base.{refl, [], ◌∷◌, codes}
use j7f.Base.Maps.{Map}
use j7f.EtcdListen.{NodeInfo, WatchServerInfo}
use j7f.EtcdListen.{Listener}
use j7f.EtcdListen.Groups.{empty_group}
use j7f.EtcdListen.Groups.Kept.{IsLeft, empty_group-IsLeft}

abbrev a_node : NodeInfo
a_node = record { ip = codes "1"; port = 80; version = codes "1.2.0" }

abbrev known : Map (Map NodeInfo)
known = (codes "/grpc", (codes "n1", a_node) ∷ []) ∷ []

abbrev configs : Map WatchServerInfo
configs = (codes "k", record { name = codes "/grpc"; version = codes ">1" }) ∷ []

-- Two files that watch for the same service.
abbrev two_files : Listener
two_files = record {
  output_file_has_keys = (codes "f", configs) ∷ (codes "g", configs) ∷ [];
  names_with_output_file =
      (codes "/grpc", (codes "f", codes "k" ∷ []) ∷ (codes "g", codes "k" ∷ []) ∷ []) ∷ [];
  output_file_map = (codes "f", []) ∷ (codes "g", []) ∷ [];
  etcd_settings = known;
}

empty_group-IsLeft_example :
    IsLeft
      (codes "f")
      (codes "g")
      (codes "/grpc")
      refl
      two_files
      (empty_group (codes "f") two_files).0
empty_group-IsLeft_example =
    empty_group-IsLeft (codes "f") (codes "g") (codes "/grpc") refl two_files
