-- ===== src/Grpc/Streams.antt =====
-- components/grpc/server/grpc.go: a stream of the server. A channel is its place in `channels`, which says
-- whether a value is in its buffer of one, `watchers` has the goroutines of `RecvMsg` in their order,
-- and `senders` the calls of `SendMsg` that wait. The metadata are those of the parent's context,
-- which all contexts share; the end of a context may come at any time.
pub mod Limits
pub mod Tests
use j7f.Base.{
  ℕ, ◌+◌, Bool, true, false, List, [], ◌∷◌, ◌++◌, Option, none, some, Text, codes, if◌then◌else◌,
  ◌==◌, length, get_elem?, set,
}
use j7f.Base.Maps.{Map, find, put}

abbrev pub Metadata : Type 0
Metadata = Map (List Text)

-- A goroutine of `RecvMsg`: it reads the channel of the stream when it runs, waits on it, and returns.
-- The channel is none where the stream has none.
pub data Watcher : Type 0 where
  launched returned : Watcher
  waits : Option ℕ → Watcher

-- A `SendMsg` that waits for a channel, with whether its message has a status; none is one that went on.
abbrev pub Sender : Type 0
Sender = Option (ℕ × Bool)

pub record GrpcStream : Type 0 where
  pub metadata : Option Metadata
  pub processing_done : Option ℕ
  pub channels : List Bool
  pub watchers : List Watcher
  pub senders : List Sender

abbrev pub default_rate_limit : ℕ
default_rate_limit = 1000

-- `New`: the limit of requests is `PerRequest`, or the default for zero.
unfoldable pub new_stream : Option Metadata → ℕ → GrpcStream × ℕ
new_stream metadata per_request = (
  record {
    metadata = metadata;
    processing_done = none;
    channels = [];
    watchers = [];
    senders = [];
  },
  if per_request == 0 then default_rate_limit else per_request,
)

abbrev pub trace_key : Text
trace_key = codes "trace_id"

abbrev pub with_trace : Option Text → Option Metadata → Option Metadata
with_trace none metadata = metadata
with_trace (some trace_id) none = none
with_trace (some trace_id) (some md) = some (put trace_key (trace_id ∷ []) md)

-- `RecvMsg`: the error of the stream is given, and the trace of a message that has a header.
pub recv_msg : Option Text → Option Text → GrpcStream → GrpcStream × Option Text
recv_msg error trace s = elim error [
  | some err ↦ (s, some err)
  | none ↦
      let done = length s.channels in
      (
        record s {
          metadata = with_trace trace s.metadata;
          processing_done = some done;
          channels = s.channels ++ false ∷ [];
          watchers = s.watchers ++ launched ∷ [];
        },
        none,
      )
]

-- What `SendMsg` comes to: it waits for the channel, panics for a trace of no texts, or sends, with
-- the stream it leaves and the trace that the message's status gets.
pub data Sending : Type 0 where
  blocked : Sending
  panicked : GrpcStream → Sending
  sends : GrpcStream → Option Text → Sending

pub full_at : ℕ → List Bool → Bool
full_at c channels = elim (get_elem? channels c) [ none ↦ true | some full ↦ full ]

abbrev pub traces : Option Metadata → Option (List Text)
unfolding find
traces none = none
traces (some md) = find trace_key md

-- The status of the message gets the first of the traces.
pub with_status : GrpcStream → Option (List Text) → Sending
with_status s none = sends s none
with_status s (some []) = panicked s
with_status s (some (trace_id ∷ ids)) = sends s (some trace_id)

-- The value is put into the channel, and the message goes out.
pub fill_channel : ℕ → Bool → GrpcStream → Sending
unfolding full_at with_status
fill_channel c has_status s =
    let t = record s { channels = set s.channels c true } in
    if full_at c s.channels
    then blocked
    else if has_status
    then with_status t (traces s.metadata)
    else sends t none

-- `has_status` says whether the message is a `ResponseStatus`.
pub send_msg : Bool → GrpcStream → Sending
unfolding fill_channel
send_msg has_status s = elim s.processing_done [
  | none ↦ blocked
  | some done ↦ fill_channel done has_status s
]

-- A `SendMsg` that waits for a channel stays behind; on a nil channel it waits for ever.
abbrev pub left_waiting : Bool → GrpcStream → GrpcStream
left_waiting has_status s = elim s.processing_done [
  | none ↦ s
  | some done ↦ record s { senders = s.senders ++ some (done, has_status) ∷ [] }
]

-- What is left, and the messages sent: `s` is left where the call waits.
abbrev pub sent_to : GrpcStream → Sending → GrpcStream × ℕ
sent_to s blocked = (s, 0)
sent_to s (panicked t) = (t, 0)
sent_to s (sends t trace) = (t, 1)

pub sends_msg : Bool → GrpcStream → GrpcStream × ℕ
unfolding send_msg
sends_msg has_status s = sent_to (left_waiting has_status s) (send_msg has_status s)

-- A `SendMsg` that waits finds its channel empty, and goes on.
pub sender_goes : ℕ → GrpcStream → GrpcStream × ℕ
unfolding fill_channel
sender_goes i s = elim (get_elem? s.senders i) [
  | some (some (c, has_status)) ↦
      if full_at c s.channels
      then (s, 0)
      else sent_to s (fill_channel c has_status (record s { senders = set s.senders i none }))
  | _ ↦ (s, 0)
]

-- A goroutine of `RecvMsg` comes to its `select`.
pub watcher_begins : ℕ → GrpcStream → GrpcStream
watcher_begins i s = elim (get_elem? s.watchers i) [
  | some launched ↦ record s { watchers = set s.watchers i (waits s.processing_done) }
  | _ ↦ s
]

-- It finds its channel fill_channel, and returns.
pub watcher_takes : ℕ → GrpcStream → GrpcStream
unfolding full_at
watcher_takes i s = elim (get_elem? s.watchers i) [
  | some (waits (some c)) ↦
      if full_at c s.channels
      then record s { channels = set s.channels c false; watchers = set s.watchers i returned }
      else s
  | _ ↦ s
]

-- Its time ends: it sends a response with a status itself, and waits no more.
pub watcher_times_out : ℕ → GrpcStream → GrpcStream × ℕ
unfolding sends_msg
watcher_times_out i s = elim (get_elem? s.watchers i) [
  | some (waits c) ↦ sends_msg true (record s { watchers = set s.watchers i returned })
  | _ ↦ (s, 0)
]

-- What happens to a stream: the handler's calls, the goroutines, and the calls of `SendMsg` that wait.
pub data Step : Type 0 where
  receives : Option Text → Option Text → Step
  handler_sends : Bool → Step
  goes begins takes times_out : ℕ → Step

-- The stream after a step, and the messages sent.
pub step : Step → GrpcStream → GrpcStream × ℕ
unfolding recv_msg sends_msg sender_goes watcher_begins watcher_takes watcher_times_out
step (receives error trace) s = ((recv_msg error trace s).0, 0)
step (handler_sends has_status) s = sends_msg has_status s
step (goes i) s = sender_goes i s
step (begins i) s = (watcher_begins i s, 0)
step (takes i) s = (watcher_takes i s, 0)
step (times_out i) s = watcher_times_out i s

pub steps : List Step → GrpcStream → GrpcStream × ℕ
unfolding step
steps [] s = (s, 0)
steps (e ∷ es) s = let (t, n) = step e s in let (u, m) = steps es t in (u, n + m)
