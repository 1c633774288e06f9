-- ===== src/Log/Zap/Filled.antt =====
-- What `NewZap` makes of a configuration.
use j7f.Base.{
  ◌≡◌, refl, sym, ap, ◌∙◌, false, List, [], ◌∷◌, none, some, Text, codes, same_text, arith, ◌⊎◌,
  inl, inr,
}
use j7f.Log.Zap.{
  EncoderConfig, Config, Zap, or_key, with_keys, or_stderr, with_defaults, zap_config, NewLogger,
  built, new_zap,
}

or_key-or_key :
    (c : Text) (key : Text) → same_text key [] ≡ false → or_key key (or_key key c) ≡ or_key key c
unfolding or_key
or_key-or_key [] [] h = refl
or_key-or_key [] (k ∷ key) h = refl
or_key-or_key (d ∷ c) key h = refl

or_stderr-or_stderr : (paths : List Text) → or_stderr (or_stderr paths) ≡ or_stderr paths
unfolding or_stderr
or_stderr-or_stderr [] = refl
or_stderr-or_stderr (path ∷ paths) = refl

with_keys-with_keys : (e : EncoderConfig) → with_keys (with_keys e) ≡ with_keys e
unfolding with_keys
with_keys-with_keys e = ground (
  arith,
  or_key-or_key e.time_key (codes "T") refl,
  or_key-or_key e.level_key (codes "L") refl,
  or_key-or_key e.name_key (codes "N") refl,
  or_key-or_key e.caller_key (codes "C") refl,
  or_key-or_key e.message_key (codes "M") refl,
  or_key-or_key e.stacktrace_key (codes "S") refl,
)

with_defaults-with_defaults : (c : Config) → with_defaults (with_defaults c) ≡ with_defaults c
unfolding with_defaults
with_defaults-with_defaults c = ground (
  arith,
  with_keys-with_keys c.encoder_config,
  or_stderr-or_stderr c.output_paths,
  or_stderr-or_stderr c.error_output_paths,
)

module _ {Level Core : Type 0} (zap : Zap Level Core) where
  -- The logger that a text of a level leads to.
  of_level : Config → Text ⊎ Level → NewLogger Core
  of_level c (inl err) = record { log_cfg = c; logger = none; error = some err }
  of_level c (inr level) =
      let filled = with_defaults c in
      built filled (zap.build (zap_config level (zap.enables_info level) filled))

  new_zap_lem : (c : Config) → new_zap zap c ≡ of_level c (zap.unmarshal_text c.level)
  unfolding new_zap of_level
  new_zap_lem c = ground arith

  built_cfg : (c : Config) (r : Text ⊎ Core) → (built c r).log_cfg ≡ c
  unfolding built
  built_cfg c (inl err) = refl
  built_cfg c (inr core) = refl

  of_level_again :
      (c : Config) (r : Text ⊎ Level) → of_level (of_level c r).log_cfg r ≡ of_level c r
  unfolding of_level
  of_level_again c (inl err) = refl
  of_level_again c (inr level) =
      let filled = with_defaults c in
      let make : Config → NewLogger Core =
        λ d. built d (zap.build (zap_config level (zap.enables_info level) d)) in
      ap (λ d. make (with_defaults d)) (built_cfg filled _)
      ∙ ap make (with_defaults-with_defaults c)

  of_level_level : (c : Config) (r : Text ⊎ Level) → (of_level c r).log_cfg.level ≡ c.level
  unfolding of_level
  of_level_level c (inl err) = refl
  of_level_level c (inr level) =
      ap (λ (d : Config). d.level) (built_cfg (with_defaults c) _) ∙ unfold with_defaults in refl

  -- Called again on what it left of a configuration, `NewZap` leaves the same and gives the same.
  new_zap_again : (c : Config) → new_zap zap (new_zap zap c).log_cfg ≡ new_zap zap c
  new_zap_again c =
      let r = zap.unmarshal_text c.level in
      let once = new_zap_lem c in
      let level : (new_zap zap c).log_cfg.level ≡ c.level =
        ap (λ (l : NewLogger Core). l.log_cfg.level) once ∙ of_level_level c r in
      new_zap_lem (new_zap zap c).log_cfg
      ∙ (ap (λ t. of_level (new_zap zap c).log_cfg (zap.unmarshal_text t)) level
          ∙ (ap (λ (l : NewLogger Core). of_level l.log_cfg r) once
              ∙ (of_level_again c r ∙ sym once)))
