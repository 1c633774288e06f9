-- ===== src/Mq/Consumer.antt =====
-- components/mq/consumer.go: a consumer over that of nsq. A handler and a logger are their numbers.
pub mod Tests
use j7f.Base.{ℕ, Option, none, some, List, Text, codes, same_text, if◌then◌else◌, ◌⊎◌, inl, inr}
use j7f.Base.Int.{ℤ}
use j7f.Mq.Config.{Config, FieldValue, new_config}

-- `NewConsumer`: the configuration of nsq, then its consumer, each of which may give an error.
consumer_of :
    {Nsq Consumer : Type 0}
    → (Nsq → Text ⊎ Consumer)
    → Nsq × Option Text
    → Option Consumer × Option Text
consumer_of make (config, some err) = (none, some err)
consumer_of make (config, none) = elim (make config) [
  | inl err ↦ (none, some err)
  | inr consumer ↦ (some consumer, none)
]

new_consumer :
    {Float Nsq Consumer : Type 0}
    → (Text → FieldValue Float → Nsq → Nsq × Option Text)
    → (Text → Text → Nsq → Text ⊎ Consumer)
    → Nsq
    → Text
    → Text
    → Config Float
    → Option Consumer × Option Text
unfolding consumer_of
new_consumer set make nsq topic channel cfg =
    consumer_of (make topic channel) (new_config set cfg nsq)

pub data NsqLevel : Type 0 where
  log_level_debug log_level_info log_level_warning log_level_error : NsqLevel

-- The methods of a consumer.
pub data Method : Type 0 where
  connect_to_nsq_lookupd connect_to_nsqd : Text → Method
  connect_to_nsq_lookupds connect_to_nsqds : List Text → Method
  disconnect_from_nsqd disconnect_from_nsq_lookupd : Text → Method
  add_handler : ℕ → Method
  add_concurrent_handlers : ℕ → ℤ → Method
  set_logger : ℕ → Text → Method

-- The calls of the consumer of nsq.
pub data NsqCall : Type 0 where
  nsq_lookupd nsq_nsqd : Text → NsqCall
  nsq_lookupds nsq_nsqds : List Text → NsqCall
  nsq_leave_nsqd nsq_leave_lookupd : Text → NsqCall
  nsq_handler : ℕ → NsqCall
  nsq_handlers : ℕ → ℤ → NsqCall
  nsq_logger : ℕ → NsqLevel → NsqCall

unfoldable pub nsq_level : Text → NsqLevel
nsq_level lvl =
    if same_text lvl (codes "info")
    then log_level_info
    else if same_text lvl (codes "error")
    then log_level_error
    else if same_text lvl (codes "warning")
    then log_level_warning
    else log_level_debug

unfoldable pub passed_on : Method → NsqCall
unfolding nsq_level
passed_on (connect_to_nsq_lookupd addr) = nsq_lookupd addr
passed_on (connect_to_nsq_lookupds addresses) = nsq_lookupds addresses
passed_on (connect_to_nsqd addr) = nsq_nsqd addr
passed_on (connect_to_nsqds addresses) = nsq_nsqds addresses
passed_on (disconnect_from_nsqd addr) = nsq_leave_nsqd addr
passed_on (disconnect_from_nsq_lookupd addr) = nsq_leave_lookupd addr
passed_on (add_handler handler) = nsq_handler handler
passed_on (add_concurrent_handlers handler concurrency) = nsq_handlers handler concurrency
passed_on (set_logger l lvl) = nsq_logger l (nsq_level lvl)
