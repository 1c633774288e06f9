-- ===== src/Grpc/Client/Calls/Named.antt =====
-- The names of a service and its method in the lines of the log.
use j7f.Base.{
  ℕ, ◌≡◌, ap, ◌∷◌, ◌++◌, Option, some, Text, arith, drop, refl, List, [], none, codes, ◌∙◌,
}
use j7f.Base.Maps.{find}
use j7f.Errors.Frames.Names.{path_base_last}
use j7f.Strings.Laws.{IsWithout}
use j7f.Strings.Paths.{dir}
use j7f.Strings.Paths.Elements.{IsElement, dir_element}
use j7f.Grpc.Client.Calls.{
  Metadata, Fields, first_trace, trace_ids, fields_with, new_client_logger_fields,
}

-- The first of the caller's traces, or the new one without any; none for an entry of no texts.
abbrev pub first_or : Text → Option (List Text) → Option Text
first_or new_trace none = some new_trace
first_or new_trace (some []) = none
first_or new_trace (some (trace_id ∷ ids)) = some trace_id

abbrev pub traced_as : Text → Option Metadata → Option Text
traced_as new_trace none = some new_trace
traced_as new_trace (some md) = first_or new_trace (find (codes "trace_id") md)

first_trace-or :
    (new_trace : Text) (ids : Option (List Text))
    → first_trace new_trace ids ≡ first_or new_trace ids
unfolding first_trace
first_trace-or new_trace none = refl
first_trace-or new_trace (some []) = refl
first_trace-or new_trace (some (trace_id ∷ ids)) = refl

traced_as_lem :
    (new_trace : Text) (md : Option Metadata)
    → first_trace new_trace (trace_ids md) ≡ traced_as new_trace md
traced_as_lem new_trace none = first_trace-or new_trace none
traced_as_lem new_trace (some md) = first_trace-or new_trace (find (codes "trace_id") md)

abbrev pub fields_of : Text → Text → Option Text → Option Fields
fields_of service method none = none
fields_of service method (some trace_id) =
    some (record { service = service; method = method; trace_id = trace_id })

fields_with_lem :
    (service method : Text) (c : ℕ) (trace : Option Text)
    → IsElement service
    → IsWithout b'/' (c ∷ method)
    → fields_with (b'/' ∷ (service ++ b'/' ∷ c ∷ method)) trace
      ≡ fields_of service (c ∷ method) trace
unfolding fields_with
fields_with_lem service method c none h k = refl
fields_with_lem service method c (some trace_id) h k =
    let full = b'/' ∷ (service ++ b'/' ∷ c ∷ method) in
    let named : drop 1 (dir full) ≡ service = ap (drop 1) (dir_element service (c ∷ method) h k) in
    ground (arith, named, path_base_last service method c k)

-- For a slash, a service, a slash and a method, where neither has a slash, the method is not
-- empty and the service is not empty, a dot or two dots: the fields of a call are the service,
-- the method and the first of the texts under trace_id in the metadata, or the new trace where
-- there are no metadata or no such entry; where the entry has no texts it is a panic.
pub new_client_logger_fields_lem :
    (new_trace service method : Text) (md : Option Metadata) (c : ℕ)
    → IsElement service
    → IsWithout b'/' (c ∷ method)
    → new_client_logger_fields new_trace md (b'/' ∷ (service ++ b'/' ∷ c ∷ method))
      ≡ fields_of service (c ∷ method) (traced_as new_trace md)
unfolding new_client_logger_fields
new_client_logger_fields_lem new_trace service method md c h k =
    ap (fields_with (b'/' ∷ (service ++ b'/' ∷ c ∷ method))) (traced_as_lem new_trace md)
    ∙ fields_with_lem service method c (traced_as new_trace md) h k
