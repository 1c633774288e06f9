-- ===== src/Grpc/Streams/Tests.antt =====
-- Requests with a trace, and a handler that sends several responses.
use j7f.Base.{refl, ◌*◌, ◌≤◌, ◌≡◌, ◌≢◌, true, false, List, [], ◌∷◌, none, some, codes}
use j7f.Base.Maps.{find, put}
use j7f.Grpc.Streams.{
  Step, receives, handler_sends, goes, begins, takes, times_out, steps, new_stream, recv_msg,
  send_msg, blocked, traces,
}
use j7f.Grpc.Streams.Limits.{requests_in, two_sent}

-- Two requests come before the goroutine of the first one runs.
abbrev late : List Step
late =
    receives none (some (codes "t"))
    ∷ receives none (some (codes "u"))
    ∷ begins 0
    ∷ begins 1
    ∷ handler_sends true
    ∷ takes 0
    ∷ handler_sends false
    ∷ takes 1
    ∷ handler_sends false
    ∷ []

two_sent_example :
    let r = steps late (new_stream (some []) 0).0 in
    (r.1 ≤ 2 * requests_in late)
    × (send_msg true (recv_msg none (some (codes "v")) r.0).0 ≢ blocked)
two_sent_example = two_sent (some []) 0 late (some (codes "v")) true

-- The channel of the second one is read twice, so that three messages go out for it.
three_of_second : (steps late (new_stream (some []) 0).0).1 ≡ 3
unfolding steps new_stream recv_msg send_msg find put
three_of_second = refl

-- For one request the third one waits, and goes on when the goroutine has read the second.
abbrev three_sends : List Step
three_sends =
    receives none none
    ∷ handler_sends false
    ∷ begins 0
    ∷ handler_sends false
    ∷ takes 0
    ∷ goes 0
    ∷ handler_sends false
    ∷ []

two_of_three : (steps three_sends (new_stream none 0).0).1 ≡ 2
unfolding steps new_stream recv_msg send_msg
two_of_three = refl

-- The response of a goroutine whose time ended takes the place of the handler's.
in_time :
    (steps
      (receives none none ∷ begins 0 ∷ times_out 0 ∷ handler_sends true ∷ [])
      (new_stream none 0).0).1
    ≡ 1
unfolding steps new_stream recv_msg send_msg traces
in_time = refl
