-- ===== src/Http/Params.antt =====
-- components/http/middleware/json_param.go and errors.go: the body of a request among the values of its
-- context, and the errors of a context as the answer. What reading the body gives is an argument, and `parse`
-- is `json.Unmarshal`.
pub mod Tests
use j7f.Base.{
  ℕ, ◌≡◌, refl, ◌∙◌, ap, true, false, List, [], ◌∷◌, ◌++◌, Option, none, some, Text, codes, arith,
  same_text, same_text_refl, Option-cases, inl, inr, if◌then◌else◌,
}
use j7f.Base.Maps.{Map, find, put, find-put}

-- A value under a key of a context.
pub data Stored (Json : Type 0) : Type 0 where
  raw : Text → Stored Json
  parsed : Json → Stored Json

-- What the code uses of a `gin.Context`; `status` is that of an abort.
pub record Context (Json : Type 0) : Type 0 where
  pub errors : List Text
  pub status : Option ℕ
  pub keys : Map (Stored Json)
  pub body : Text

-- The two calls of gin that keep an error; the first gives an error back.
pub record Gin (Json : Type 0) : Type 0 where
  pub abort_with_error : ℕ → Text → Context Json → Context Json × Option Text
  pub error : Text → Context Json → Context Json

-- `AbortWithError` aborts with the status and keeps the error, which it gives back.
pub record IsKeeping {Json : Type 0} (gin : Gin Json) : Type 0 where
  pub aborts :
      (code : ℕ) (err : Text) (c : Context Json)
      → gin.abort_with_error code err c
        ≡ (record c { status = some code; errors = c.errors ++ err ∷ [] }, some err)
  pub keeps :
      (err : Text) (c : Context Json) → gin.error err c ≡ record c { errors = c.errors ++ err ∷ [] }

abbrev pub raw_data : Text
raw_data = codes "raw-data"

abbrev pub json_key : Text
json_key = codes "json-param"

-- `Error`, with the errors that the handlers behind it leave: the status and the body.
unfoldable pub error_answer : List Text → Option (ℕ × List Text)
error_answer [] = none
error_answer (err ∷ errors) = some (400, err ∷ errors)

module _ {Json : Type 0} (gin : Gin Json) (parse : Text → Option Json) where
  kept_again : Context Json × Option Text → Context Json
  kept_again (c, none) = c
  kept_again (c, some err) = gin.error err c

  kept_error : Option Text → Context Json → Context Json
  unfolding kept_again
  kept_error none c = c
  kept_error (some err) c = kept_again (gin.abort_with_error 403 err c)

  with_param : Text → Map (Stored Json) → Map (Stored Json)
  with_param [] keys = keys
  with_param (b ∷ body) keys = elim (parse (b ∷ body)) [
    | none ↦ keys
    | some param ↦ put json_key (parsed param) keys
  ]

  -- `JsonParam`, up to its call of `Next`.
  unfoldable pub json_param : Text → Option Text → Context Json → Context Json
  unfolding kept_error with_param
  json_param body error c =
      let d = kept_error error c in
      record d { keys = with_param body (put raw_data (raw body) d.keys); body = body }

  with_param_raw :
      (body : Text) (keys : Map (Stored Json))
      → find raw_data (with_param body keys) ≡ find raw_data keys
  unfolding with_param
  with_param_raw [] keys = refl
  with_param_raw (b ∷ body) keys = elim (Option-cases (parse (b ∷ body))) [
    | inl e ↦ ground arith
    | inr (param, e) ↦ ground (arith, find-put raw_data json_key (parsed param) keys)
  ]

  -- The body is there for the handlers behind, under its key and to be read again. An error of reading it
  -- aborts with 403, and is kept twice.
  json_param_lem :
      (body err : Text) (c : Context Json)
      → IsKeeping gin
      → (find raw_data (json_param body (some err) c).keys ≡ some (raw body))
        × ((json_param body (some err) c).body ≡ body)
        × ((json_param body (some err) c).status ≡ some 403)
        × ((json_param body (some err) c).errors ≡ (c.errors ++ err ∷ []) ++ err ∷ [])
  json_param_lem body err c k =
      let aborted : Context Json = record c { status = some 403; errors = c.errors ++ err ∷ [] } in
      let twice : Context Json = record aborted { errors = aborted.errors ++ err ∷ [] } in
      let kept : kept_error (some err) c ≡ twice =
        unfold kept_error in ap kept_again (k.aborts 403 err c) ∙ k.keeps err aborted in
      let keys = put raw_data (raw body) c.keys in
      let found : find raw_data (with_param body keys) ≡ some (raw body) =
        with_param_raw body keys
        ∙ ground (arith, find-put raw_data raw_data (raw body) c.keys, same_text_refl raw_data) in
      let is : json_param body (some err) c
          ≡ record twice { keys = with_param body keys; body = body } =
        unfold json_param in
        ap
          (λ (d : Context Json). record d {
            keys = with_param body (put raw_data (raw body) d.keys);
            body = body;
          })
          kept in
      (
        ap (λ (d : Context Json). find raw_data d.keys) is ∙ found,
        ap (λ (d : Context Json). d.body) is,
        ap (λ (d : Context Json). d.status) is,
        ap (λ (d : Context Json). d.errors) is,
      )
