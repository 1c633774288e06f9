-- ===== src/Log/Zap.antt =====
-- components/log/zap.go: the configuration handed to zap, and what the methods of a logger write. A level
-- and a logger of zap are of types that are given; a value of an initial field is its number.
pub mod Filled
pub mod Written
pub mod Tests
use j7f.Base.{
  ℕ, Bool, true, false, List, [], ◌∷◌, ◌++◌, Option, none, some, Text, codes, same_text, ltb,
  length, take, if◌then◌else◌, ◌⊎◌, inl, inr,
}
use j7f.Base.Maps.{Map, find}

pub record EncoderConfig : Type 0 where
  pub message_key : Text
  pub level_key : Text
  pub time_key : Text
  pub name_key : Text
  pub caller_key : Text
  pub stacktrace_key : Text
  pub line_ending : Text

pub record Config : Type 0 where
  pub level : Text
  pub encoding : Text
  pub encoder_config : EncoderConfig
  pub output_paths : List Text
  pub error_output_paths : List Text
  pub initial_fields : Map ℕ

-- zap's configuration, as far as it is set.
pub data Encoder : Type 0 where
  capital_level lowercase_level : Encoder
  cst_time epoch_time : Encoder
  string_duration seconds_duration : Encoder
  short_caller : Encoder

pub record ZapConfig (Level : Type 0) : Type 0 where
  pub level : Level
  pub development : Bool
  pub sampling_initial : ℕ
  pub sampling_thereafter : ℕ
  pub encoding : Text
  pub encoder_config : EncoderConfig
  pub encode_level : Encoder
  pub encode_time : Encoder
  pub encode_duration : Encoder
  pub encode_caller : Encoder
  pub output_paths : List Text
  pub error_output_paths : List Text

-- What zap answers: the level of a text, whether it lets the level Info through, and the logger that is
-- built with the stack trace of errors.
pub record Zap (Level Core : Type 0) : Type 0 where
  pub unmarshal_text : Text → Text ⊎ Level
  pub enables_info : Level → Bool
  pub build : ZapConfig Level → Text ⊎ Core

pub or_key : Text → Text → Text
or_key key [] = key
or_key key (c ∷ t) = c ∷ t

pub with_keys : EncoderConfig → EncoderConfig
unfolding or_key
with_keys e = record e {
  time_key = or_key (codes "T") e.time_key;
  level_key = or_key (codes "L") e.level_key;
  name_key = or_key (codes "N") e.name_key;
  caller_key = or_key (codes "C") e.caller_key;
  message_key = or_key (codes "M") e.message_key;
  stacktrace_key = or_key (codes "S") e.stacktrace_key;
}

pub or_stderr : List Text → List Text
or_stderr [] = codes "stderr" ∷ []
or_stderr (path ∷ paths) = path ∷ paths

-- The caller's configuration is changed in place.
pub with_defaults : Config → Config
unfolding with_keys or_stderr
with_defaults c = record c {
  encoder_config = with_keys c.encoder_config;
  output_paths = or_stderr c.output_paths;
  error_output_paths = or_stderr c.error_output_paths;
}

abbrev pub default_line_ending : Text
default_line_ending = codes "\n"

pub zap_config : {Level : Type 0} → Level → Bool → Config → ZapConfig Level
zap_config level is_debug_mode c = record {
  level = level;
  development = is_debug_mode;
  sampling_initial = 100;
  sampling_thereafter = 100;
  encoding = c.encoding;
  encoder_config = record c.encoder_config { line_ending = default_line_ending };
  encode_level = if is_debug_mode then capital_level else lowercase_level;
  encode_time = if is_debug_mode then cst_time else epoch_time;
  encode_duration = if is_debug_mode then string_duration else seconds_duration;
  encode_caller = short_caller;
  output_paths = c.output_paths;
  error_output_paths = c.error_output_paths;
}

-- A `Logger` holds one of zap, or nil where zap gave an error.
pub record Logger (Core : Type 0) : Type 0 where
  pub logger : Option Core

-- What `NewZap` leaves of its argument, and its results.
pub record NewLogger (Core : Type 0) : Type 0 where
  pub log_cfg : Config
  pub logger : Option (Logger Core)
  pub error : Option Text

built : {Core : Type 0} → Config → Text ⊎ Core → NewLogger Core
built c (inl err) = record {
  log_cfg = c;
  logger = some (record { logger = none });
  error = some err;
}
built c (inr core) = record {
  log_cfg = c;
  logger = some (record { logger = some core });
  error = none;
}

module _ {Level Core : Type 0} (zap : Zap Level Core) where
  pub new_zap : Config → NewLogger Core
  unfolding with_defaults zap_config built
  new_zap c = elim (zap.unmarshal_text c.level) [
    | inl err ↦ record { log_cfg = c; logger = none; error = some err }
    | inr level ↦
        let filled = with_defaults c in
        built filled (zap.build (zap_config level (zap.enables_info level) filled))
  ]

-- `ResetLogger`.
pub reset_logger : {Core : Type 0} → Logger Core → Logger Core → Logger Core
reset_logger l other = record l { logger = other.logger }

pub data LogLevel : Type 0 where
  debug info warn error : LogLevel

-- A line of a logger, with its fields.
pub record Line : Type 0 where
  pub level : LogLevel
  pub message : Text
  pub fields : Map Text

-- `Write`: the line, and the number of bytes.
pub write : Text → Line × ℕ
write p = (record { level = debug; message = codes "HTTP: " ++ p; fields = [] }, length p)

-- A context that is nil, one with no incoming metadata, or one with some.
pub data TraceContext : Type 0 where
  nil_context no_metadata : TraceContext
  incoming : Map (List Text) → TraceContext

-- `Trace`: the fields that the logger gets; `none` is a panic.
pub trace_of : Option (List Text) → Option (Map Text)
trace_of none = some []
trace_of (some []) = none
trace_of (some (trace_id ∷ ids)) = some ((codes "trace_id", trace_id) ∷ [])

pub trace : TraceContext → Option (Map Text)
unfolding trace_of
trace nil_context = some []
trace no_metadata = some []
trace (incoming md) = trace_of (find (codes "trace_id") md)

abbrev pub line_of : LogLevel → Text → Text → List Line
line_of level message s =
    record { level = level; message = message; fields = (codes "msg", s) ∷ [] } ∷ []

-- `Output`: the lines that are written; `none` is the panic of the slice.
pub output : Text → Option (List Line)
output s =
    if ltb (length s) 3
    then none
    else if same_text (take 3 s) (codes "INF")
    then some (line_of info (codes "output info") s)
    else if same_text (take 3 s) (codes "WRN")
    then some (line_of warn (codes "output warning") s)
    else if same_text (take 3 s) (codes "ERR")
    then some (line_of error (codes "output error") s)
    else if same_text (take 3 s) (codes "DBG")
    then some (line_of debug (codes "output debug") s)
    else some []
