-- ===== src/Mq/Consumer/Tests.antt =====
-- Loggers of a known and of an unknown level.
use j7f.Base.{◌≡◌, refl, codes}
use j7f.Mq.Consumer.{
  set_logger, nsq_logger, log_level_warning, log_level_debug, nsq_level, passed_on,
}

set_logger_run : passed_on (set_logger 1 (codes "warning")) ≡ nsq_logger 1 log_level_warning
unfolding passed_on
set_logger_run = refl

other_level : nsq_level (codes "Error") ≡ log_level_debug
unfolding nsq_level
other_level = refl
