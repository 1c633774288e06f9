-- ===== src/Grpc/Interceptors/Coded.antt =====
-- What is left of the code of a business error behind the interceptors.
use j7f.Base.{◌≡◌, ◌≢◌, refl, ap, ◌∙◌, Option, none, some, Text, ℕ, [], ◌∷◌, arith}
use j7f.Base.Int.{pos}
use j7f.Errors.{Error, Err, plain, business, with_message, error_text}
use j7f.Grpc.Interceptors.{
  Status, MethodStatus, of_genproto, of_grpc, method_status, Statuses, Answered, unary_server_error,
  stream_server_error,
}

-- Whether a method is one of `interface{ GRPCStatus() *Status }` of grpc, which one that gives another
-- package's type is not, and what it then gives.
abbrev pub own_status : Option MethodStatus → Option Status
own_status none = none
own_status (some (of_genproto fields)) = none
own_status (some (of_grpc s)) = some s

-- grpc's documentation: `FromError` is the status of an error with such a method, and else Unknown with
-- the text; `Err` of a status is an error if the code is not OK.
pub record IsDocumented (statuses : Statuses) : Type 0 where
  pub known :
      (e : Err) (s : Status)
      → own_status (method_status statuses.plain_status e) ≡ some s
      → statuses.from_error e ≡ s
  pub unknown :
      (e : Err)
      → own_status (method_status statuses.plain_status e) ≡ none
      → statuses.from_error e ≡ record { code = pos 2; message = error_text e }
  pub errs : (s : Status) → s.code ≢ pos 0 → statuses.err s ≡ some s

abbrev pub refused : Status → Err → Answered
refused s e = record { reply = none; error = some s; logged = e ∷ [] }

-- An error whose status is found.
answered :
    (statuses : Statuses) (res : Option ℕ) (e : Err) (s : Status)
    → statuses.err (statuses.from_error e) ≡ some s
    → (unary_server_error statuses res (some e) ≡ refused s e)
      × (stream_server_error statuses (some e) ≡ (some s, e ∷ []))
unfolding unary_server_error stream_server_error
answered statuses res e s h = (
  ap (λ o. let a : Answered = record { reply = none; error = o; logged = e ∷ [] } in a) h,
  ap (λ o. (o, e ∷ [])) h,
)

answered_unknown :
    (statuses : Statuses) (res : Option ℕ) (e : Err)
    → IsDocumented statuses
    → own_status (method_status statuses.plain_status e) ≡ none
    → let s : Status = record { code = pos 2; message = error_text e } in
      (unary_server_error statuses res (some e) ≡ refused s e)
      × (stream_server_error statuses (some e) ≡ (some s, e ∷ []))
answered_unknown statuses res e d h = answered statuses res e _ (
    ap statuses.err (d.unknown e h)
    ∙ d.errs (record { code = pos 2; message = error_text e }) (λ p. absurd cc))

-- Where FromError gives the status of an error that has a method for a status of grpc, and else
-- Unknown with the text, and a status that is not OK makes an error of itself: both
-- interceptors answer a business error, of whatever code, and one with a message around it with
-- Unknown and the text, since GRPCStatus of a business error gives a status of another package;
-- they answer an error of grpc with its own status. Each is logged, and the unary one gives no
-- reply.
pub business_unknown :
    (statuses : Statuses) (res : Option ℕ) (e : Error) (msg t : Text) (s : Status)
    → IsDocumented statuses
    → statuses.plain_status t ≡ some s
    → s.code ≢ pos 0
    → let u : Status = record { code = pos 2; message = e.err } in
      let wrapped = with_message (business e) msg in
      let v : Status = record { code = pos 2; message = error_text wrapped } in
      (unary_server_error statuses res (some (business e)) ≡ refused u (business e))
      × (stream_server_error statuses (some (business e)) ≡ (some u, business e ∷ []))
      × (unary_server_error statuses res (some wrapped) ≡ refused v wrapped)
      × (stream_server_error statuses (some wrapped) ≡ (some v, wrapped ∷ []))
      × (unary_server_error statuses res (some (plain t)) ≡ refused s (plain t))
      × (stream_server_error statuses (some (plain t)) ≡ (some s, plain t ∷ []))
unfolding method_status error_text
business_unknown statuses res e msg t s d h c =
    let wrapped = with_message (business e) msg in
    let ours = answered_unknown statuses res (business e) d refl in
    let around = answered_unknown statuses res wrapped d refl in
    let known : statuses.from_error (plain t) ≡ s = d.known (plain t) s (ground arith) in
    let theirs = answered statuses res (plain t) s (ap statuses.err known ∙ d.errs s c) in
    (ours.0, ours.1, around.0, around.1, theirs.0, theirs.1)
