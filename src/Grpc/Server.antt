-- ===== src/Grpc/Server.antt =====
-- components/grpc/server/server.go: the server, which calls the functions registered with it. An option, a
-- callback and an engine are their numbers; a value of another type than the one asked for is `other`.
pub mod Started
pub mod Tests
use j7f.Base.{Bool, ℕ, List, [], ◌∷◌, ◌++◌, Option, none, some, Text, map}
use j7f.Base.Maps.{Map, put}

-- A value of an `interface{}`, and the ones of the type that is asked for.
pub data Registered : Type 0 where
  of_type : ℕ → Registered
  other : Registered

pub of_the_type : List Registered → List ℕ
of_the_type [] = []
of_the_type (of_type f ∷ fs) = f ∷ of_the_type fs
of_the_type (other ∷ fs) = of_the_type fs

-- The chains of interceptors are options of grpc.
pub data ServerOption : Type 0 where
  given : ℕ → ServerOption
  stream_chain unary_chain : List ℕ → ServerOption

pub record GrpcServer : Type 0 where
  pub opts : List ServerOption
  pub cb : List ℕ
  pub engine : Option (List ServerOption)

-- `NewGrpcServer`; the error of listening is given.
new_grpc_server : Option Text → List ℕ → Option GrpcServer × Option Text
new_grpc_server error opts = elim error [
  | some err ↦ (none, some err)
  | none ↦ (some (record { opts = map given opts; cb = []; engine = none }), none)
]

pub register_stream_interceptors : List Registered → GrpcServer → GrpcServer
unfolding of_the_type
register_stream_interceptors fs g = record g { opts = g.opts ++ stream_chain (of_the_type fs) ∷ [] }

pub register_unary_interceptors : List Registered → GrpcServer → GrpcServer
unfolding of_the_type
register_unary_interceptors fs g = record g { opts = g.opts ++ unary_chain (of_the_type fs) ∷ [] }

pub register_cb : List Registered → GrpcServer → GrpcServer
unfolding of_the_type
register_cb cbs g = record g { cb = g.cb ++ of_the_type cbs }

-- The callbacks one after the other, up to the first error: those called, and the error.
pub call_all : (ℕ → Option Text) → List ℕ → List ℕ × Option Text
call_all result [] = ([], none)
call_all result (f ∷ fs) =
    let (called, error) = call_all result fs in
    elim (result f) [ none ↦ (f ∷ called, error) | some err ↦ (f ∷ [], some err) ]

-- `NewServ`: the engine has the options of this moment.
pub new_serv : (ℕ → Option Text) → GrpcServer → GrpcServer × List ℕ × Option Text
unfolding call_all
new_serv result g =
    let (called, error) = call_all result g.cb in (record g { engine = some g.opts }, called, error)

-- What stops the engine.
pub data EngineCall : Type 0 where
  stop graceful_stop : EngineCall

pub stopped : EngineCall
stopped = stop

gracefully_stopped : EngineCall
gracefully_stopped = stop

-- The services of the engine, as grpc tells of them, and as `GetServicesInfo` does.
pub record MethodInfo : Type 0 where
  pub name : Text
  pub is_client_stream : Bool
  pub is_server_stream : Bool

pub record ServiceInfo (Meta : Type 0) : Type 0 where
  pub methods : List MethodInfo
  pub metadata : Meta

pub copied_methods : List MethodInfo → List MethodInfo
copied_methods [] = []
copied_methods (m ∷ ms) =
    record {
      name = m.name;
      is_client_stream = m.is_client_stream;
      is_server_stream = m.is_server_stream;
    }
    ∷ copied_methods ms

pub get_services_info : {Meta : Type 0} → Map (ServiceInfo Meta) → Map (ServiceInfo Meta)
unfolding copied_methods
get_services_info [] = []
get_services_info ((k, v) ∷ services) =
    put k (record { methods = copied_methods v.methods; metadata = v.metadata })
      (get_services_info services)
