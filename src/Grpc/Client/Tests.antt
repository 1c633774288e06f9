-- ===== src/Grpc/Client/Tests.antt =====
-- A service whose connection works, and one whose connection does not.
use j7f.Base.{ℕ, ◌≡◌, refl, true, false, List, [], ◌∷◌, none, some, Text, codes, inr, if◌then◌else◌}
use j7f.Base.Int.{pos}
use j7f.Base.Maps.{find}
use j7f.Grpc.Client.{
  check_conn_status, State, ready, transient_failure, redialled, Outside, GrpcClient, endpoint,
  client_code_to_level, info_level,
}
use j7f.Grpc.Client.Endpoints.{endpoint_lem}

abbrev answers : State → Outside
answers state = record {
  read_file = λ f. inr f;
  appends_certs = λ b. false;
  load_key_pair = λ c k. inr 0;
  dial = λ a os. inr 4;
  get_state = λ k. state;
}

abbrev a_client : GrpcClient
a_client = record {
  service_name = codes "users";
  timeout = pos 0;
  opts = [];
  addr = [];
  conn = none;
}

dials : (endpoint (answers ready) (codes "h:1") false [] [] [] a_client []).conn ≡ some 4
unfolding endpoint find
dials = refl

-- The connection fails before the second call.
endpoint_lem_example :
    let o = answers ready in
    let later = answers transient_failure in
    let e = endpoint o (codes "h:1") false [] [] [] a_client [] in
    (e.error ≡ none)
    × (check_conn_status (o.get_state 4) ≡ true)
    × (find (codes "h:1") e.conn_map ≡ some 4)
    × (find (codes "h:2") e.conn_map ≡ find {A = ℕ} (codes "h:2") [])
    × (endpoint later (codes "h:1") true [] [] [] e.client e.conn_map ≡ (
        if check_conn_status (later.get_state 4)
        then record { client = e.client; conn_map = e.conn_map; conn = some 4; error = none }
        else redialled later (codes "h:1") true [] [] [] e.client e.conn_map))
endpoint_lem_example =
    endpoint_lem (answers ready) (answers transient_failure) (codes "h:1") false true [] [] []
      a_client [] 4 (codes "h:2") dials refl

no_conn : find {A = ℕ} (codes "h:1") [] ≡ none
unfolding find
no_conn = refl

abbrev four_messages : List Text
four_messages = codes "a" ∷ codes "b" ∷ codes "c" ∷ codes "d" ∷ []

unauthenticated_is_info : client_code_to_level 16 ≡ info_level
unfolding client_code_to_level
unauthenticated_is_info = refl
