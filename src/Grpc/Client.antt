-- ===== src/Grpc/Client.antt =====
-- components/grpc/client: client.go, and of grpc.go the stream of the client and the levels of codes.
-- A connection, an interceptor and an option from outside are their numbers.
pub mod Calls
pub mod Endpoints
pub mod Received
pub mod Tests
use j7f.Base.{
  ℕ, map, Bool, true, false, ◌&&◌, ◌||◌, not, List, [], ◌∷◌, ◌++◌, Option, none, some, Text,
  same_text, codes, if◌then◌else◌, ◌==◌, ◌⊎◌, inl, inr,
}
use j7f.Base.Int.{ℤ}
use j7f.Base.Maps.{Map, find, put}

pub data State : Type 0 where
  idle connecting ready transient_failure shut_down : State

pub record TlsConfig : Type 0 where
  pub root_cas : Option Text
  pub certificates : List ℕ

pub data DialOption : Type 0 where
  given stream_interceptor unary_interceptor : ℕ → DialOption
  insecure : DialOption
  transport_credentials : TlsConfig → DialOption

-- What the files, the tls package and grpc answer in one call of `Endpoint`: an error or a result. A
-- call asks a connection once for its state, which may be another one in the next call.
pub record Outside : Type 0 where
  pub read_file : Text → Text ⊎ Text
  pub appends_certs : Text → Bool
  pub load_key_pair : Text → Text → Text ⊎ ℕ
  pub dial : Text → List DialOption → Text ⊎ ℕ
  pub get_state : ℕ → State

pub record GrpcClient : Type 0 where
  pub service_name : Text
  pub timeout : ℤ
  pub opts : List DialOption
  pub addr : Text
  pub conn : Option ℕ

new_grpc_client : Text → ℤ → List ℕ → GrpcClient
new_grpc_client service_name timeout options = record {
  service_name = service_name;
  timeout = timeout;
  opts = map given options;
  addr = [];
  conn = none;
}

pub register_stream_interceptors : ℕ → GrpcClient → GrpcClient
register_stream_interceptors f c = record c { opts = c.opts ++ stream_interceptor f ∷ [] }

pub register_unary_interceptors : ℕ → GrpcClient → GrpcClient
register_unary_interceptors f c = record c { opts = c.opts ++ unary_interceptor f ∷ [] }

abbrev pub check_conn_status : State → Bool
check_conn_status transient_failure = false
check_conn_status shut_down = false
check_conn_status idle = true
check_conn_status connecting = true
check_conn_status ready = true

abbrev pub is_empty : Text → Bool
is_empty t = same_text t []

-- The certificates of authorities: the error, nil where the pool takes none of them, or the pool.
pub root_pool : Outside → Text → Option Text ⊎ Option Text
root_pool o cacert = if is_empty cacert then inr none else elim (o.read_file cacert) [
  | inl err ↦ inl (some err)
  | inr b ↦ if o.appends_certs b then inr (some b) else inl none
]

-- The options that TLS adds, or an error.
pub tls_options : Outside → Text → Text → Text → Option Text ⊎ List DialOption
unfolding root_pool
tls_options o cacert cert cert_key = elim (root_pool o cacert) [
  | inl err ↦ inl err
  | inr cas ↦
      let plain : TlsConfig = record { root_cas = cas; certificates = [] } in
      if not (is_empty cert) && not (is_empty cert_key)
      then elim (o.load_key_pair cert cert_key) [
        | inl err ↦ inl (some err)
        | inr certificate ↦
            let both =
              transport_credentials (record { root_cas = cas; certificates = certificate ∷ [] }) in
            inr (both ∷ both ∷ [])
      ]
      else if not (is_empty cert) || not (is_empty cert_key)
      then inl (some (codes "cert and certkey are required to authenticate mutually"))
      else inr (transport_credentials plain ∷ [])
]

-- The client, `connMap`, and what is returned.
pub record Endpoint : Type 0 where
  pub client : GrpcClient
  pub conn_map : Map ℕ
  pub conn : Option ℕ
  pub error : Option Text

pub dialled : Outside → Text → GrpcClient → Map ℕ → Endpoint
dialled o addr c conns = elim (o.dial addr c.opts) [
  | inl err ↦ record { client = c; conn_map = conns; conn = none; error = some err }
  | inr conn ↦
      if check_conn_status (o.get_state conn)
      then record {
        client = record c { addr = addr; conn = some conn };
        conn_map = put addr conn conns;
        conn = some conn;
        error = none;
      }
      else record { client = c; conn_map = conns; conn = none; error = none }
]

pub redialled : Outside → Text → Bool → Text → Text → Text → GrpcClient → Map ℕ → Endpoint
unfolding dialled tls_options
redialled o addr use_tls cacert cert cert_key c conns =
    if not use_tls
    then dialled o addr (record c { opts = c.opts ++ insecure ∷ [] }) conns
    else elim (tls_options o cacert cert cert_key) [
      | inl err ↦ record { client = c; conn_map = conns; conn = none; error = err }
      | inr opts ↦ dialled o addr (record c { opts = c.opts ++ opts }) conns
    ]

pub endpoint : Outside → Text → Bool → Text → Text → Text → GrpcClient → Map ℕ → Endpoint
unfolding redialled
endpoint o addr use_tls cacert cert cert_key c conns =
    let anew = redialled o addr use_tls cacert cert cert_key c conns in
    elim (find addr conns) [
      | none ↦ anew
      | some conn ↦
          if check_conn_status (o.get_state conn)
          then record { client = c; conn_map = conns; conn = some conn; error = none }
          else anew
    ]

-- `RecvMsg` of the stream, over the messages that are still to come: it reads twice, into the same
-- message, and none is the error at the end.
pub recv_msg : List Text → Option Text × List Text
recv_msg [] = (none, [])
recv_msg (m ∷ []) = (none, [])
recv_msg (m ∷ n ∷ ms) = (some n, ms)

-- All messages that calls of `RecvMsg` give until the error.
pub received : List Text → List Text
unfolding recv_msg
received [] = []
received (m ∷ []) = []
received (m ∷ n ∷ ms) = n ∷ received ms

pub data Level : Type 0 where
  debug_level info_level warn_level : Level

-- `ClientCodeToLevel`, by the numbers of the codes.
pub client_code_to_level : ℕ → Level
client_code_to_level code =
    if code == 0
      || code == 1
      || code == 3
      || code == 5
      || code == 6
      || code == 8
      || code == 9
      || code == 10
      || code == 11
    then debug_level
    else if code == 12 || code == 13 || code == 14 || code == 15
    then warn_level
    else info_level
