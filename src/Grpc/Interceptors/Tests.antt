-- ===== src/Grpc/Interceptors/Tests.antt =====
-- A business error with a code of its own.
use j7f.Base.{◌≡◌, refl, ap, [], ◌∷◌, some, none, codes, Text, Option, if◌then◌else◌, same_text}
use j7f.Base.Int.{pos}
use j7f.Errors.{Error, plain, business, with_message, error_text}
use j7f.Grpc.Interceptors.{Status, method_status, Statuses, unary_server_error, stream_server_error}
use j7f.Grpc.Interceptors.Coded.{own_status, IsDocumented, refused, business_unknown}

abbrev not_found : Status
not_found = record { code = pos 5; message = codes "no user" }

-- An error of grpc is one with the text of the status.
abbrev status_of : Text → Option Status
status_of t = if same_text t (codes "no user") then some not_found else none

abbrev or_unknown : Option Status → Text → Status
or_unknown none t = record { code = pos 2; message = t }
or_unknown (some s) t = s

abbrev grpc_statuses : Statuses
grpc_statuses = record {
  plain_status = status_of;
  from_error = λ e. or_unknown (own_status (method_status status_of e)) (error_text e);
  err = λ s. some s;
}

grpc_statuses-IsDocumented : IsDocumented grpc_statuses
grpc_statuses-IsDocumented = record {
  known = λ e s h. ap (λ o. or_unknown o (error_text e)) h;
  unknown = λ e h. ap (λ o. or_unknown o (error_text e)) h;
  errs = λ s h. refl;
}

abbrev timed_out : Error
timed_out = record { code = pos 10001; err = codes "timeout"; stack = [] }

business_unknown_example :
    let u : Status = record { code = pos 2; message = codes "timeout" } in
    let wrapped = with_message (business timed_out) (codes "get") in
    let v : Status = record { code = pos 2; message = error_text wrapped } in
    (unary_server_error grpc_statuses (some 1) (some (business timed_out))
      ≡ refused u (business timed_out))
    × (stream_server_error grpc_statuses (some (business timed_out))
        ≡ (some u, business timed_out ∷ []))
    × (unary_server_error grpc_statuses (some 1) (some wrapped) ≡ refused v wrapped)
    × (stream_server_error grpc_statuses (some wrapped) ≡ (some v, wrapped ∷ []))
    × (unary_server_error grpc_statuses (some 1) (some (plain (codes "no user")))
        ≡ refused not_found (plain (codes "no user")))
    × (stream_server_error grpc_statuses (some (plain (codes "no user")))
        ≡ (some not_found, plain (codes "no user") ∷ []))
business_unknown_example =
    business_unknown grpc_statuses (some 1) timed_out (codes "get") (codes "no user") not_found
      grpc_statuses-IsDocumented refl (λ p. absurd cc)
