-- ===== src/Mq/Lookup.antt =====
-- components/mq/api_request.go: a request of a lookup service, over the answers of net/http. Reading JSON is
-- given, and `quote` is `%q`.
use j7f.Base.{
  ℕ, [], ◌∷◌, ◌++◌, Option, none, some, Text, codes, same_text, ◌==◌, if◌then◌else◌, ◌⊎◌, inl, inr,
}

pub record HttpResponse : Type 0 where
  pub status_code : ℕ
  pub status : Text
  pub content_type : Text
  pub body : Text ⊎ Text

-- What a body is read into: the caller's value, or its place in a `wrappedResp`.
pub data Target : Type 0 where
  ret wrapped : Target

-- The error of making a request, or of sending it, or the response.
pub record Net : Type 0 where
  pub new_request : Text → Text → Option Text
  pub send : Text → Text → Text ⊎ HttpResponse

or_object : Text → Text
or_object [] = codes "{}"
or_object (c ∷ body) = c ∷ body

module _ (unmarshal : Target → Text → Option Text) (quote : Text → Text) where
  read_response : HttpResponse → Text → Option Text
  unfolding or_object
  read_response resp body =
      if resp.status_code == 200
      then if same_text resp.content_type (codes "nsq; version=1.0")
        then unmarshal ret (or_object body)
        else unmarshal wrapped (or_object body)
      else some (codes "got response " ++ resp.status ++ codes " " ++ quote body)

  read_answer : Text ⊎ HttpResponse → Option Text
  unfolding read_response
  read_answer (inl err) = some err
  read_answer (inr resp) = elim resp.body [
    | inl err ↦ some err
    | inr body ↦ read_response resp body
  ]

  -- `apiRequestNegotiateV1`, up to its error.
  api_request_negotiate : Net → Text → Text → Option Text
  unfolding read_answer
  api_request_negotiate net method endpoint = elim (net.new_request method endpoint) [
    | some err ↦ some err
    | none ↦ read_answer (net.send method endpoint)
  ]
