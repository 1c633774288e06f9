-- ===== src/Grpc/Interceptors.antt =====
-- components/grpc/interceptor: the errors of handlers as statuses, and the stream that a handler gets. A
-- reply is its number, and the statuses are those of grpc's package status, which is given.
pub mod Coded
pub mod Tests
use j7f.Base.{ℕ, Bool, List, [], ◌∷◌, Option, none, some, Text}
use j7f.Base.Int.{ℤ}
use j7f.Errors.{Err, plain, business, with_stack, with_message, grpc_status}
use j7f.Grpc.Streams.{Metadata, GrpcStream, new_stream}

pub record Status : Type 0 where
  pub code : ℤ
  pub message : Text

-- What a method `GRPCStatus` gives: a Status of genproto, or one of grpc's package status.
pub data MethodStatus : Type 0 where
  of_genproto : ℤ × Text → MethodStatus
  of_grpc : Status → MethodStatus

-- The method `GRPCStatus` that an error has. An error of another package has the one that is given;
-- `withStack` and `withMessage` have an error in them, and so no method but those of an error.
pub method_status : (Text → Option Status) → Err → Option MethodStatus
unfolding grpc_status
method_status plain_status (plain t) = elim (plain_status t) [
  | none ↦ none
  | some s ↦ some (of_grpc s)
]
method_status plain_status (business e) = some (of_genproto (grpc_status e))
method_status plain_status (with_stack e st) = none
method_status plain_status (with_message e msg) = none

-- The status of an error of another package, where it has a method for it, `status.FromError`, whose second result is not used, and the method `Err` of a status, which is nil for the
-- code OK. An error that comes back is its status.
pub record Statuses : Type 0 where
  pub plain_status : Text → Option Status
  pub from_error : Err → Status
  pub err : Status → Option Status

-- What an interceptor gives back, and the errors that it logs.
pub record Answered : Type 0 where
  pub reply : Option ℕ
  pub error : Option Status
  pub logged : List Err

module _ (statuses : Statuses) where
  -- `UnaryServerErrorInterceptor`, given what the handler returns.
  unfoldable pub unary_server_error : Option ℕ → Option Err → Answered
  unary_server_error res none = record { reply = res; error = none; logged = [] }
  unary_server_error res (some err) = record {
    reply = none;
    error = statuses.err (statuses.from_error err);
    logged = err ∷ [];
  }

  -- `StreamServerErrorInterceptor`.
  unfoldable pub stream_server_error : Option Err → Option Status × List Err
  stream_server_error none = (none, [])
  stream_server_error (some err) = (statuses.err (statuses.from_error err), err ∷ [])

-- `StreamServerTraceInterceptor`: the handler gets the stream of the package.
unfoldable pub stream_server_trace {ℓ} :
    {A : Type ℓ} → (GrpcStream × ℕ → A) → Option Metadata → ℕ → A
stream_server_trace handler metadata per_request = handler (new_stream metadata per_request)
