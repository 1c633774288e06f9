-- ===== src/Grpc/Streams/Limits.antt =====
-- How many messages go out, for every order of the handler and the goroutines.
use j7f.Base.{
  ℕ, zero, suc, ◌+◌, ◌*◌, ◌≤◌, ◌≡◌, refl, ap, sym, ◌∙◌, Bool, true, false, not, List, [], ◌∷◌, ◌++◌,
  Option, none, some, Text, arith, length, set, get_elem?, Bool-cases, Option-cases, inl, inr,
  subst, ◌≢◌, same_text_refl,
}
use j7f.Base.Maps.{put, find-put}
use j7f.Grpc.Streams.{
  Watcher, launched, returned, waits, Sender, GrpcStream, new_stream, blocked, sends, full_at,
  traces, with_status, fill_channel, send_msg, sends_msg, sender_goes, watcher_begins,
  watcher_takes, watcher_times_out, sent_to, Step, receives, handler_sends, goes, begins, takes,
  times_out, step, steps, recv_msg, Metadata, trace_key, with_trace,
}

abbrev one : Bool → ℕ
one true = 1
one false = 0

-- The channels whose buffer is empty, and the goroutines that have not returned.
abbrev free : List Bool → ℕ
free [] = 0
free (full ∷ channels) = one (not full) + free channels

abbrev going : Watcher → ℕ
going launched = 1
going (waits c) = 1
going returned = 0

abbrev going_of : Option Watcher → ℕ
going_of none = 0
going_of (some w) = going w

abbrev alive : List Watcher → ℕ
alive [] = 0
alive (w ∷ ws) = going w + alive ws

free-append : (channels : List Bool) → free (channels ++ false ∷ []) ≡ suc (free channels)
free-append [] = refl
free-append (x ∷ xs) = ground (arith, free-append xs)

alive-append : (ws : List Watcher) → alive (ws ++ launched ∷ []) ≡ suc (alive ws)
alive-append [] = refl
alive-append (w ∷ ws) = ground (arith, alive-append ws)

free-fill :
    (channels : List Bool) (c : ℕ)
    → full_at c channels ≡ false
    → suc (free (set channels c true)) ≡ free channels
unfolding full_at
free-fill [] c h = absurd (ground arith)
free-fill (x ∷ xs) zero h = ground arith
free-fill (x ∷ xs) (suc c) h = ground (arith, free-fill xs c h)

free-empty : (channels : List Bool) (c : ℕ) → free (set channels c false) ≤ suc (free channels)
free-empty [] c = omega arith
free-empty (true ∷ xs) zero = omega arith
free-empty (false ∷ xs) zero = omega arith
free-empty (x ∷ xs) (suc c) = omega (arith, free-empty xs c)

alive-set :
    (ws : List Watcher) (i : ℕ) (v w : Watcher)
    → get_elem? ws i ≡ some w
    → alive (set ws i v) + going w ≡ alive ws + going v
alive-set [] i v w h = cc
alive-set (x ∷ xs) zero v w h = ground (arith, ap going_of h)
alive-set (x ∷ xs) (suc i) v w h = ground (arith, alive-set xs i v w h)

-- What may still go out: a value for each empty buffer, and one for each goroutine that takes one.
abbrev room : GrpcStream → ℕ
room s = free s.channels + alive s.watchers

-- At most `more` messages have gone out for the room that is used up.
abbrev Spends : ℕ → GrpcStream → GrpcStream × ℕ → Type 0
Spends more s r = r.1 + room r.0 ≤ room s + more

status-Spends :
    (s t u : GrpcStream) (ids : Option (List Text))
    → Spends 0 s (t, 1)
    → Spends 0 s (sent_to u (with_status t ids))
unfolding with_status
status-Spends s t u none h = h
status-Spends s t u (some []) h = omega (arith, h)
status-Spends s t u (some (id ∷ ids)) h = h

fill_channel-Spends :
    (c : ℕ) (has_status : Bool) (s u : GrpcStream)
    → Spends 0 s (u, 0)
    → Spends 0 s (sent_to u (fill_channel c has_status s))
fill_channel-Spends c has_status s u h = elim (Bool-cases (full_at c s.channels)) [
  | inl f ↦
      let is : fill_channel c has_status s ≡ blocked = unfold fill_channel in ground arith in
      subst (λ r. Spends 0 s (sent_to u r)) (sym is) h
  | inr f ↦
      let t = record s { channels = set s.channels c true } in
      let fits : Spends 0 s (t, 1) = omega (arith, free-fill s.channels c f) in
      elim (Bool-cases has_status) [
        | inl b ↦
            let is : fill_channel c has_status s ≡ with_status t (traces s.metadata) =
              unfold fill_channel in ground arith in
            subst (λ r. Spends 0 s (sent_to u r)) (sym is)
              (status-Spends s t u (traces s.metadata) fits)
        | inr b ↦
            let is : fill_channel c has_status s ≡ sends t none =
              unfold fill_channel in ground arith in
            subst (λ r. Spends 0 s (sent_to u r)) (sym is) fits
      ]
]

sends-Spends : (has_status : Bool) (s : GrpcStream) → Spends 0 s (sends_msg has_status s)
sends-Spends has_status s = elim (Option-cases s.processing_done) [
  | inl e ↦
      let is : sends_msg has_status s ≡ (s, 0) = unfold sends_msg send_msg in ground arith in
      subst (Spends 0 s) (sym is) (omega arith)
  | inr (c, e) ↦
      let u = record s { senders = s.senders ++ some (c, has_status) ∷ [] } in
      let is : sends_msg has_status s ≡ sent_to u (fill_channel c has_status s) =
        unfold sends_msg send_msg in ground arith in
      subst (Spends 0 s) (sym is) (fill_channel-Spends c has_status s u (omega arith))
]

goes-by :
    (i : ℕ) (s : GrpcStream) (o : Option Sender)
    → get_elem? s.senders i ≡ o
    → Spends 0 s (sender_goes i s)
unfolding sender_goes
goes-by i s none e = rw (e, sender_goes) (omega arith)
goes-by i s (some none) e = rw (e, sender_goes) (omega arith)
goes-by i s (some (some (c, has_status))) e = elim (Bool-cases (full_at c s.channels)) [
  | inl f ↦ rw (e, f, sender_goes) (omega arith)
  | inr f ↦
      let t = record s { senders = set s.senders i none } in
      let is : sender_goes i s ≡ sent_to s (fill_channel c has_status t) =
        rw (e, f, sender_goes) refl in
      subst (Spends 0 s) (sym is) (fill_channel-Spends c has_status t s (omega arith))
]

begins-by :
    (i : ℕ) (s : GrpcStream) (o : Option Watcher)
    → get_elem? s.watchers i ≡ o
    → Spends 0 s (watcher_begins i s, 0)
unfolding watcher_begins
begins-by i s none e = rw (e, watcher_begins) (omega arith)
begins-by i s (some launched) e =
    rw (e, watcher_begins)
      (omega (arith, alive-set s.watchers i (waits s.processing_done) launched e))
begins-by i s (some (waits c)) e = rw (e, watcher_begins) (omega arith)
begins-by i s (some returned) e = rw (e, watcher_begins) (omega arith)

takes-by :
    (i : ℕ) (s : GrpcStream) (o : Option Watcher)
    → get_elem? s.watchers i ≡ o
    → Spends 0 s (watcher_takes i s, 0)
unfolding watcher_takes
takes-by i s none e = rw (e, watcher_takes) (omega arith)
takes-by i s (some launched) e = rw (e, watcher_takes) (omega arith)
takes-by i s (some returned) e = rw (e, watcher_takes) (omega arith)
takes-by i s (some (waits none)) e = rw (e, watcher_takes) (omega arith)
takes-by i s (some (waits (some c))) e = elim (Bool-cases (full_at c s.channels)) [
  | inr f ↦ rw (e, f, watcher_takes) (omega arith)
  | inl f ↦
      rw (e, f, watcher_takes)
        (omega (arith, alive-set s.watchers i returned (waits (some c)) e, free-empty s.channels c))
]

times_out-by :
    (i : ℕ) (s : GrpcStream) (o : Option Watcher)
    → get_elem? s.watchers i ≡ o
    → Spends 0 s (watcher_times_out i s)
unfolding watcher_times_out
times_out-by i s none e = rw (e, watcher_times_out) (omega arith)
times_out-by i s (some launched) e = rw (e, watcher_times_out) (omega arith)
times_out-by i s (some returned) e = rw (e, watcher_times_out) (omega arith)
times_out-by i s (some (waits c)) e =
    let left = record s { watchers = set s.watchers i returned } in
    rw (e, watcher_times_out)
      (omega (arith, sends-Spends true left, alive-set s.watchers i returned (waits c) e))

-- The successful calls of `RecvMsg` in a step.
abbrev pub requests_by : Step → ℕ
requests_by (receives none trace) = 1
requests_by (receives (some err) trace) = 0
requests_by (handler_sends has_status) = 0
requests_by (goes i) = 0
requests_by (begins i) = 0
requests_by (takes i) = 0
requests_by (times_out i) = 0

abbrev pub requests_in : List Step → ℕ
requests_in [] = 0
requests_in (e ∷ es) = requests_by e + requests_in es

step-Spends : (e : Step) (s : GrpcStream) → Spends (2 * requests_by e) s (step e s)
unfolding step recv_msg
step-Spends (receives none trace) s = omega (arith, free-append s.channels, alive-append s.watchers)
step-Spends (receives (some err) trace) s = omega arith
step-Spends (handler_sends has_status) s = sends-Spends has_status s
step-Spends (goes i) s = goes-by i s (get_elem? s.senders i) refl
step-Spends (begins i) s = begins-by i s (get_elem? s.watchers i) refl
step-Spends (takes i) s = takes-by i s (get_elem? s.watchers i) refl
step-Spends (times_out i) s = times_out-by i s (get_elem? s.watchers i) refl

steps-Spends : (es : List Step) (s : GrpcStream) → Spends (2 * requests_in es) s (steps es s)
unfolding steps
steps-Spends [] s = omega arith
steps-Spends (e ∷ es) s = omega (arith, step-Spends e s, steps-Spends es (step e s).0)

full_at-new : (channels : List Bool) → full_at (length channels) (channels ++ false ∷ []) ≡ false
unfolding full_at
full_at-new [] = refl
full_at-new (x ∷ xs) = full_at-new xs

status_goes : (t : GrpcStream) (ids : Option (List Text)) → with_status t ids ≢ blocked
unfolding with_status
status_goes t none = λ h. cc
status_goes t (some []) = λ h. cc
status_goes t (some (id ∷ ids)) = λ h. cc

first_goes :
    (has_status : Bool) (c : ℕ) (s : GrpcStream)
    → s.processing_done ≡ some c
    → full_at c s.channels ≡ false
    → send_msg has_status s ≢ blocked
first_goes true c s p f = λ h.
    let t = record s { channels = set s.channels c true } in
    let goes : send_msg true s ≡ with_status t (traces s.metadata) =
      unfold send_msg fill_channel in ground arith in
    status_goes t (traces s.metadata) (sym goes ∙ h)
first_goes false c s p f = λ h.
    let t = record s { channels = set s.channels c true } in
    let goes : send_msg false s ≡ sends t none = unfold send_msg fill_channel in ground arith in
    cc (goes, h)

-- For a new stream and any order of the handler's calls, of the goroutines of `RecvMsg`, each
-- of which reads the channel of the stream when it runs, and of the calls of `SendMsg` that
-- wait: at most two messages have gone out for each successful `RecvMsg`, those of goroutines
-- whose time ended included, and a `SendMsg` right after one more `RecvMsg` does not wait.
pub two_sent :
    (metadata : Option Metadata) (per_request : ℕ) (es : List Step) (trace : Option Text)
    (has_status : Bool)
    → let r = steps es (new_stream metadata per_request).0 in
      (r.1 ≤ 2 * requests_in es) × (send_msg has_status (recv_msg none trace r.0).0 ≢ blocked)
unfolding new_stream recv_msg
two_sent metadata per_request es trace has_status =
    let s = (new_stream metadata per_request).0 in
    let r = steps es s in
    (
      omega (arith, steps-Spends es s),
      first_goes has_status (length r.0.channels) (recv_msg none trace r.0).0 refl
          (full_at-new r.0.channels),
    )

-- Where the context has metadata, the status of the first response gets the trace of the
-- request.
first_trace :
    (t : Text) (s : GrpcStream) (md : Metadata)
    → s.metadata ≡ some md
    → (u : GrpcStream) × (send_msg true (recv_msg none (some t) s).0 ≡ sends u (some t))
unfolding send_msg fill_channel
first_trace t s md h =
    let r = (recv_msg none (some t) s).0 in
    let c = length s.channels in
    let u = record r { channels = set r.channels c true } in
    let uses : r.processing_done ≡ some c = unfold recv_msg in refl in
    let free : full_at c r.channels ≡ false = unfold recv_msg in full_at-new s.channels in
    let kept : r.metadata ≡ some (put trace_key (t ∷ []) md) =
      unfold recv_msg in ap (with_trace (some t)) h in
    let found : traces r.metadata ≡ some (t ∷ []) =
      ap traces kept
      ∙ unfold traces in
        ground (arith, find-put trace_key trace_key (t ∷ []) md, same_text_refl trace_key) in
    (u, ground (arith, uses, free) ∙ (ap (with_status u) found ∙ unfold with_status in refl))
