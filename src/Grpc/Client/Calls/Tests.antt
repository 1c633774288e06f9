-- ===== src/Grpc/Client/Calls/Tests.antt =====
-- A call of a service, traced by its caller.
use j7f.Base.{◌≡◌, refl, [], ◌∷◌, ◌++◌, Option, some, none, codes}
use j7f.Base.Maps.{find}
use j7f.Grpc.Client.Calls.{Metadata, new_client_logger_fields}
use j7f.Grpc.Client.Calls.Named.{traced_as, fields_of, new_client_logger_fields_lem}

abbrev traced : Option Metadata
traced = some ((codes "trace_id", codes "t1" ∷ codes "t2" ∷ []) ∷ [])

abbrev no_traces : Option Metadata
no_traces = some ((codes "trace_id", []) ∷ [])

-- An entry of no texts is a panic.
untraced : new_client_logger_fields (codes "new") no_traces (codes "/a.Hello/Say") ≡ none
unfolding new_client_logger_fields find
untraced = refl

new_client_logger_fields_lem_example :
    new_client_logger_fields
      (codes "new")
      traced
      (b'/' ∷ (codes "a.Hello" ++ b'/' ∷ b'S' ∷ codes "ay"))
    ≡ fields_of (codes "a.Hello") (b'S' ∷ codes "ay") (traced_as (codes "new") traced)
new_client_logger_fields_lem_example =
    new_client_logger_fields_lem (codes "new") (codes "a.Hello") (codes "ay") traced b'S'
      ((refl, (refl, (refl, (refl, (refl, (refl, (refl, tt))))))), refl, refl, refl)
      (refl, (refl, (refl, tt)))
