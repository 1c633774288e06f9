-- ===== src/Http/Server/Tests.antt =====
-- A server with a callback that adds a route, and one that fails.
use j7f.Base.{
  ℕ, ◌≡◌, refl, false, List, [], ◌∷◌, ◌++◌, Option, none, some, Text, codes, ◌==◌, if◌then◌else◌,
}
use j7f.Base.Maps.{find, put}
use j7f.Http.Server.{HttpServer, new_serv, get_services_info}

abbrev with_user : HttpServer → HttpServer
with_user g = record g {
  engine = record g.engine {
    routes = g.engine.routes ++ record { method = codes "POST"; path = codes "/u" } ∷ [];
  };
}

abbrev run : ℕ → HttpServer → HttpServer × Option Text
run f g = if f == 0 then (with_user g, none) else (g, some (codes "no"))

abbrev a_server : List ℕ → HttpServer
a_server cb = record {
  addr = codes ":80";
  release_mode = false;
  engine = record { handlers = []; routes = [] };
  cb = cb;
  serving = none;
}

two_paths :
    get_services_info (new_serv run (a_server (0 ∷ []))).0
    ≡ (
      codes "/u",
      record { name = codes "POST"; is_client_stream = false; is_server_stream = false } ∷ [],
    )
      ∷ (
        codes "/j7ping",
        record { name = codes "GET"; is_client_stream = false; is_server_stream = false } ∷ [],
      )
      ∷ []
unfolding new_serv get_services_info put find
two_paths = refl

second_fails : (new_serv run (a_server (0 ∷ 1 ∷ 0 ∷ []))).1 ≡ some (codes "no")
unfolding new_serv
second_fails = refl
