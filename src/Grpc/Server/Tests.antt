-- ===== src/Grpc/Server/Tests.antt =====
-- Two callbacks of which the first fails, and two services.
use j7f.Base.{ℕ, ◌≡◌, refl, true, false, [], ◌∷◌, Option, none, some, Text, codes}
use j7f.Base.Maps.{Map, find, put}
use j7f.Grpc.Server.{GrpcServer, given, MethodInfo, ServiceInfo, get_services_info, new_serv}

abbrev a_server : GrpcServer
a_server = record { opts = given 1 ∷ []; cb = 5 ∷ 6 ∷ []; engine = none }

abbrev all_fail : ℕ → Option Text
all_fail f = some (codes "no")

only_first : (new_serv all_fail a_server).1 ≡ 5 ∷ []
unfolding new_serv
only_first = refl

abbrev a_method : MethodInfo
a_method = record { name = codes "Get"; is_client_stream = false; is_server_stream = true }

abbrev two_services : Map (ServiceInfo Text)
two_services =
    (codes "b", record { methods = []; metadata = codes "b.proto" })
    ∷ (codes "a", record { methods = a_method ∷ []; metadata = codes "a.proto" })
    ∷ []

found_again : find (codes "a") (get_services_info two_services) ≡ find (codes "a") two_services
unfolding get_services_info find put
found_again = refl
