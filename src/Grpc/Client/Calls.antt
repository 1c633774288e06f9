-- ===== src/Grpc/Client/Calls.antt =====
-- components/grpc/client/grpc.go and client.go: the trace of a message that is sent, the fields and the level
-- of the line that is logged of a call, the interceptors, and `Invoke`. A message, an error and a stream are
-- their numbers; `status_code` is `status.Code` of an error that is not nil, and a new trace is given.
pub mod Named
pub mod Tests
use j7f.Base.{
  ℕ, Bool, true, false, List, [], ◌∷◌, Option, none, some, Text, codes, drop, if◌then◌else◌, ◌/◌,
}
use j7f.Base.Maps.{Map, find}
use j7f.Errors.Frames.{path_base}
use j7f.Strings.Paths.{dir}
use j7f.Grpc.Client.{Level, client_code_to_level}

abbrev pub Metadata : Type 0
Metadata = Map (List Text)

abbrev pub trace_ids : Option Metadata → Option (List Text)
trace_ids none = none
trace_ids (some md) = find (codes "trace_id") md

-- The first of the traces, or the new one; none is the panic for no texts.
pub first_trace : Text → Option (List Text) → Option Text
first_trace new_trace none = some new_trace
first_trace new_trace (some []) = none
first_trace new_trace (some (trace_id ∷ ids)) = some trace_id

-- A `SendMsg` of the stream: the trace that is logged, and the one that a message's status gets.
pub record Sent : Type 0 where
  pub logged : Text
  pub status_trace : Option Text

pub sent_with : Text → Option (List Text) → Option Sent
sent_with new_trace none = some (record { logged = new_trace; status_trace = none })
sent_with new_trace (some []) = none
sent_with new_trace (some (trace_id ∷ ids)) =
    some (record { logged = trace_id; status_trace = some trace_id })

pub send_msg : Text → Bool → Option Metadata → Option Sent
unfolding sent_with
send_msg new_trace has_status md =
    if has_status
    then sent_with new_trace (trace_ids md)
    else some (record { logged = new_trace; status_trace = none })

-- `newClientLoggerFields`.
pub record Fields : Type 0 where
  pub service : Text
  pub method : Text
  pub trace_id : Text

pub fields_with : Text → Option Text → Option Fields
fields_with full none = none
fields_with full (some trace_id) =
    some (record { service = drop 1 (dir full); method = path_base full; trace_id = trace_id })

pub new_client_logger_fields : Text → Option Metadata → Text → Option Fields
unfolding first_trace fields_with
new_client_logger_fields new_trace md full = fields_with full (first_trace new_trace (trace_ids md))

-- The line of a call: its level, and what it says of the error.
pub record FinalLine : Type 0 where
  pub level : Level
  pub code : ℕ
  pub error : Option ℕ
  pub fields : Fields

pub code_of : (ℕ → ℕ) → Option ℕ → ℕ
code_of status_code none = 0
code_of status_code (some err) = status_code err

module _ (status_code : ℕ → ℕ) (new_trace : Text) (md : Option Metadata) (full : Text) where
  pub log_final_client_line : Fields → Option ℕ → FinalLine
  unfolding code_of
  log_final_client_line fields err = record {
    level = client_code_to_level (code_of status_code err);
    code = code_of status_code err;
    error = err;
    fields = fields;
  }

  -- The interceptors: the line and the results, or the panic of the fields.
  unary_with : Option ℕ → Option Fields → Option (FinalLine × Option ℕ)
  unary_with err none = none
  unary_with err (some fields) = some (log_final_client_line fields err, err)

  pub unary_client_interceptor : Option ℕ → Option (FinalLine × Option ℕ)
  unfolding unary_with
  unary_client_interceptor invoked = unary_with invoked (new_client_logger_fields new_trace md full)

  -- A stream of the package around what `streamer` answers, which may be nil.
  pub record Wrapped : Type 0 where
    pub g : Option ℕ
    pub method : Text

  stream_with : Option ℕ × Option ℕ → Option Fields → Option (FinalLine × Wrapped × Option ℕ)
  stream_with (stream, err) none = none
  stream_with (stream, err) (some fields) =
      some (log_final_client_line fields err, record { g = stream; method = full }, err)

  pub stream_client_interceptor : Option ℕ × Option ℕ → Option (FinalLine × Wrapped × Option ℕ)
  unfolding stream_with
  stream_client_interceptor streamed =
      stream_with streamed (new_client_logger_fields new_trace md full)

-- What a connection is asked by `Invoke`: the outgoing metadata are new ones.
pub record Asked : Type 0 where
  pub method : Text
  pub outgoing : Metadata
  pub request : ℕ

-- `Invoke`, given what the connection answers: the reply, or the error.
pub asked : Option Metadata → Text → ℕ → Asked
asked outgoing method request = record { method = method; outgoing = []; request = request }

pub invoke : (Asked → Option ℕ) → Option Metadata → Text → ℕ → ℕ → Option ℕ × Option ℕ
unfolding asked
invoke answer outgoing method reply request = elim (answer (asked outgoing method request)) [
  | some err ↦ (none, some err)
  | none ↦ (some reply, none)
]
