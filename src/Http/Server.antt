-- ===== src/Http/Server.antt =====
-- components/http/server/server.go and ping.go: the server over the engine of gin. A handler and a callback
-- are their numbers; a value of another type than the one asked for is `other`.
pub mod Services
pub mod Tests
use j7f.Base.{
  Bool, true, false, ℕ, List, [], ◌∷◌, ◌++◌, Option, none, some, Text, same_text, codes,
  if◌then◌else◌,
}
use j7f.Base.Maps.{Map, find, put}

pub record Route : Type 0 where
  pub method : Text
  pub path : Text

-- The engine: its handlers for all routes, and its routes.
pub record Engine : Type 0 where
  pub handlers : List ℕ
  pub routes : List Route

pub record HttpServer : Type 0 where
  pub addr : Text
  pub release_mode : Bool
  pub engine : Engine
  pub cb : List ℕ
  pub serving : Option Text

-- `NewHttpServer`; the error of listening is given.
new_http_server : Option Text → Text → Text → Option HttpServer × Option Text
new_http_server error addr env = elim error [
  | some err ↦ (none, some err)
  | none ↦
      let g : HttpServer = record {
        addr = addr;
        release_mode = same_text env (codes "prod");
        engine = record { handlers = []; routes = [] };
        cb = [];
        serving = none;
      } in
      (some g, none)
]

pub data Registered : Type 0 where
  of_type : ℕ → Registered
  other : Registered

pub of_the_type : List Registered → List ℕ
of_the_type [] = []
of_the_type (of_type f ∷ fs) = f ∷ of_the_type fs
of_the_type (other ∷ fs) = of_the_type fs

abbrev pub use_all : List ℕ → HttpServer → HttpServer
use_all fs g = record g { engine = record g.engine { handlers = g.engine.handlers ++ fs } }

pub register_stream_interceptors : List Registered → HttpServer → HttpServer
unfolding of_the_type
register_stream_interceptors fs g = use_all (of_the_type fs) g

pub register_unary_interceptors : List Registered → HttpServer → HttpServer
unfolding of_the_type
register_unary_interceptors fs g = use_all (of_the_type fs) g

pub register_cb : List Registered → HttpServer → HttpServer
unfolding of_the_type
register_cb cbs g = record g { cb = g.cb ++ of_the_type cbs }

abbrev pub ping_route : Route
ping_route = record { method = codes "GET"; path = codes "/j7ping" }

abbrev pub ping_init : HttpServer → HttpServer
ping_init g = record g { engine = record g.engine { routes = g.engine.routes ++ ping_route ∷ [] } }

-- The callbacks one after the other on the server, up to the first error.
pub call_all :
    (ℕ → HttpServer → HttpServer × Option Text) → List ℕ → HttpServer → HttpServer × Option Text
call_all run [] g = (g, none)
call_all run (f ∷ fs) g =
    let (h, error) = run f g in
    let rest = call_all run fs h in elim error [ none ↦ rest | some err ↦ (h, some err) ]

-- `NewServ`.
pub new_serv : (ℕ → HttpServer → HttpServer × Option Text) → HttpServer → HttpServer × Option Text
unfolding call_all
new_serv run g =
    let (h, error) = call_all run g.cb g in
    elim error [
      | some err ↦ (h, some err)
      | none ↦ (record (ping_init h) { serving = some h.addr }, none)
    ]

pub record MethodInfo : Type 0 where
  pub name : Text
  pub is_client_stream : Bool
  pub is_server_stream : Bool

abbrev pub or_empty : Option (List MethodInfo) → List MethodInfo
or_empty none = []
or_empty (some methods) = methods

pub with_entry : Text → Map (List MethodInfo) → Map (List MethodInfo)
with_entry path infos = elim (find path infos) [ none ↦ put path [] infos | some ms ↦ infos ]

-- A round of `GetServicesInfo`: the path gets an entry where it has none, and then the method.
pub add_route : Route → Map (List MethodInfo) → Map (List MethodInfo)
unfolding with_entry
add_route route infos =
    let made = with_entry route.path infos in
    let method : MethodInfo = record {
      name = route.method;
      is_client_stream = false;
      is_server_stream = false;
    } in
    put route.path (or_empty (find route.path made) ++ method ∷ []) made

pub add_routes : List Route → Map (List MethodInfo) → Map (List MethodInfo)
unfolding add_route
add_routes [] infos = infos
add_routes (route ∷ routes) infos = add_routes routes (add_route route infos)

pub get_services_info : HttpServer → Map (List MethodInfo)
unfolding add_routes
get_services_info g = add_routes g.engine.routes []

-- `shutdown`, given the error of net/http within its time: a panic with the error, or an exit. `Stop` and
-- `GracefulStop` are both this.
pub data ShutdownEnd : Type 0 where
  exits : ShutdownEnd
  panics : Text → ShutdownEnd

pub shutdown : Option Text → ShutdownEnd
shutdown none = exits
shutdown (some err) = panics err

stop_server : Option Text → ShutdownEnd
unfolding shutdown
stop_server error = shutdown error

graceful_stop_server : Option Text → ShutdownEnd
unfolding shutdown
graceful_stop_server error = shutdown error
