-- ===== src/Log/Zap/Tests.antt =====
-- A configuration with nothing but a level, and lines of the nsq library.
use j7f.Base.{ℕ, ◌≡◌, refl, true, [], ◌∷◌, none, some, codes, inl, inr}
use j7f.Base.Maps.{find}
use j7f.Log.Zap.{EncoderConfig, Config, Zap, new_zap, output, trace, incoming, warn}

abbrev no_keys : EncoderConfig
no_keys = record {
  message_key = [];
  level_key = [];
  time_key = [];
  name_key = codes "name";
  caller_key = [];
  stacktrace_key = [];
  line_ending = codes "\r\n";
}

abbrev a_config : Config
a_config = record {
  level = codes "info";
  encoding = codes "json";
  encoder_config = no_keys;
  output_paths = [];
  error_output_paths = codes "/var/log/e" ∷ [];
  initial_fields = [];
}

-- Every level is read and nothing can be built.
abbrev no_core : Zap ℕ ℕ
no_core = record {
  unmarshal_text = λ t. inr 0;
  enables_info = λ level. true;
  build = λ c. inl (codes "no encoder");
}

-- The name's key stays, the level's is filled in, and the logger that comes with the error holds nil.
new_zap_run :
    ((new_zap no_core a_config).log_cfg.encoder_config.name_key ≡ codes "name")
    × ((new_zap no_core a_config).log_cfg.encoder_config.level_key ≡ codes "L")
    × ((new_zap no_core a_config).log_cfg.output_paths ≡ codes "stderr" ∷ [])
    × ((new_zap no_core a_config).logger ≡ some (record { logger = none }))
unfolding new_zap
new_zap_run = (refl, refl, refl, refl)

output_run :
    output (codes "WRN 1")
    ≡ some (
        record {
          level = warn;
          message = codes "output warning";
          fields = (codes "msg", codes "WRN 1") ∷ [];
        }
        ∷ [])
unfolding output
output_run = refl

-- A trace of no texts is read at its first.
trace_panics : trace (incoming ((codes "trace_id", []) ∷ [])) ≡ none
unfolding trace find
trace_panics = refl
