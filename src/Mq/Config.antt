-- ===== src/Mq/Config.antt =====
-- components/mq/config.go, with `Struct2Map` of util/reflect.go: the settings that are handed to nsq. Of a
-- field the tag and the value count, with the type that the value has behind an `interface{}`.
pub mod Handed
use j7f.Base.{
  ℕ, Bool, true, false, not, List, [], ◌∷◌, Option, none, some, Text, same_text, codes,
  if◌then◌else◌,
}
use j7f.Base.Int.{ℤ, pos, eqb_ℤ}
use j7f.Base.Maps.{Map, put}

-- Durations are in nanoseconds; a float is of a type that is given.
pub data FieldValue (Float : Type 0) : Type 0 where
  int_value int64_value duration_value : ℤ → FieldValue Float
  uint16_value : ℕ → FieldValue Float
  float_value : Float → FieldValue Float
  bool_value : Bool → FieldValue Float
  text_value addr_value : Text → FieldValue Float
  nil_value : FieldValue Float
  tls_value : Option ℕ → FieldValue Float

pub record Field (Float : Type 0) : Type 0 where
  pub name : Text
  pub tag : Text
  pub value : FieldValue Float

pub record Config (Float : Type 0) : Type 0 where
  pub dial_timeout : ℤ
  pub read_timeout : ℤ
  pub write_timeout : ℤ
  pub local_addr : Option Text
  pub lookupd_poll_interval : ℤ
  pub lookupd_poll_jitter : Float
  pub max_requeue_delay : ℤ
  pub default_requeue_delay : ℤ
  pub max_attempts : ℕ
  pub heartbeat_interval : ℤ
  pub tls_v1 : Bool
  pub tls_config : Option ℕ
  pub deflate : Bool
  pub deflate_level : ℤ
  pub snappy : Bool
  pub output_buffer_size : ℤ
  pub output_buffer_timeout : ℤ
  pub max_in_flight : ℤ
  pub msg_timeout : ℤ
  pub pool_cap : ℤ
  pub concurrency : ℤ

-- A nil address is a nil interface; a nil configuration of TLS is a pointer and no nil interface.
abbrev pub addr_field : {Float : Type 0} → Option Text → FieldValue Float
addr_field none = nil_value
addr_field (some addr) = addr_value addr

abbrev pub field : {Float : Type 0} → Text → FieldValue Float → Field Float
field tag value = record { name = []; tag = tag; value = value }

-- The fields with their tags; all have one, so that the names do not count.
abbrev pub config_fields : {Float : Type 0} → Config Float → List (Field Float)
config_fields c =
    field (codes "dial_timeout") (duration_value c.dial_timeout)
    ∷ field (codes "read_timeout") (duration_value c.read_timeout)
    ∷ field (codes "write_timeout") (duration_value c.write_timeout)
    ∷ field (codes "local_addr") (addr_field c.local_addr)
    ∷ field (codes "lookupd_poll_interval") (duration_value c.lookupd_poll_interval)
    ∷ field (codes "lookupd_poll_jitter") (float_value c.lookupd_poll_jitter)
    ∷ field (codes "max_requeue_delay") (duration_value c.max_requeue_delay)
    ∷ field (codes "default_requeue_delay") (duration_value c.default_requeue_delay)
    ∷ field (codes "max_attempts") (uint16_value c.max_attempts)
    ∷ field (codes "heartbeat_interval") (duration_value c.heartbeat_interval)
    ∷ field (codes "tls_v1") (bool_value c.tls_v1)
    ∷ field (codes "tls_config") (tls_value c.tls_config)
    ∷ field (codes "deflate") (bool_value c.deflate)
    ∷ field (codes "deflate_level") (int_value c.deflate_level)
    ∷ field (codes "snappy") (bool_value c.snappy)
    ∷ field (codes "output_buffer_size") (int64_value c.output_buffer_size)
    ∷ field (codes "output_buffer_timeout") (duration_value c.output_buffer_timeout)
    ∷ field (codes "max_in_flight") (int_value c.max_in_flight)
    ∷ field (codes "msg_timeout") (duration_value c.msg_timeout)
    ∷ field (codes "pool_cap") (int_value c.pool_cap)
    ∷ field (codes "concurrency") (int_value c.concurrency)
    ∷ []

-- `Struct2Map`, from the map so far.
pub struct_to_map :
    {Float : Type 0} → List (Field Float) → Map (FieldValue Float) → Map (FieldValue Float)
struct_to_map [] data_map = data_map
struct_to_map (f ∷ fs) data_map =
    struct_to_map fs (put (if same_text f.tag [] then f.name else f.tag) f.value data_map)

-- `isEmpty`: a duration is compared with a zero of type int, which it never equals, and an empty
-- text returns nothing.
pub is_empty : {Float : Type 0} → FieldValue Float → Bool
is_empty (int_value n) = eqb_ℤ n (pos 0)
is_empty (bool_value b) = not b
is_empty nil_value = true
is_empty (int64_value n) = false
is_empty (duration_value n) = false
is_empty (uint16_value n) = false
is_empty (float_value x) = false
is_empty (text_value t) = false
is_empty (addr_value a) = false
is_empty (tls_value t) = false

-- The entries for which `Set` is called.
pub handed : {Float : Type 0} → Map (FieldValue Float) → Map (FieldValue Float)
unfolding is_empty
handed [] = []
handed ((key, value) ∷ m) =
    let rest = handed m in if is_empty value then rest else (key, value) ∷ rest

-- `NewConfig`, over the `Set` of nsq, whose error is dropped; the error that it returns is nil.
set_all :
    {Float Nsq : Type 0}
    → (Text → FieldValue Float → Nsq → Nsq × Option Text)
    → Map (FieldValue Float)
    → Nsq
    → Nsq
set_all set [] nsq = nsq
set_all set ((key, value) ∷ m) nsq = set_all set m (set key value nsq).0

pub new_config :
    {Float Nsq : Type 0}
    → (Text → FieldValue Float → Nsq → Nsq × Option Text)
    → Config Float
    → Nsq
    → Nsq × Option Text
unfolding struct_to_map handed set_all
new_config set cfg nsq = (set_all set (handed (struct_to_map (config_fields cfg) [])) nsq, none)
