-- ===== src/Http/Pages.antt =====
-- components/http/server/controller.go and result.go: the bodies of results, and what is answered where no
-- route fits. A value of an `interface{}` is of a type that is given.
pub mod Named
pub mod Tests
use j7f.Base.{
  ℕ, Bool, true, false, List, [], ◌∷◌, ◌++◌, Option, none, some, Text, codes, same_text,
  if◌then◌else◌,
}
use j7f.Base.Int.{ℤ, pos, ltb_ℤ}
use j7f.Base.Maps.{Map, find}
use j7f.Strings.{trim_left, trim_suffix, contains_text}

pub data Content (Value : Type 0) : Type 0 where
  number : ℤ → Content Value
  value : Value → Content Value
  text : Text → Content Value
  nil : Content Value

-- What the context is told to write.
pub data Response (Value : Type 0) : Type 0 where
  json : ℕ → List (Text × Content Value) → Response Value
  json_nil : ℕ → Response Value
  html : ℕ → Text → Response Value
  redirects : ℕ → Text → Response Value
  nothing : Response Value

abbrev pub status_ok : ℕ
status_ok = 200

abbrev pub status_bad_request : ℕ
status_bad_request = 400

module _ {Value : Type 0} where
  -- The functions of result.go.
  unfoldable pub result : ℤ → Content Value → Text → Response Value
  result code content msg =
      json status_ok
        ((codes "code", number code) ∷ (codes "data", content) ∷ (codes "msg", text msg) ∷ [])

  unfoldable pub result_ok : Content Value → Response Value
  result_ok content = json status_ok (
      (codes "code", number (pos status_ok))
      ∷ (codes "data", content)
      ∷ (codes "msg", text [])
      ∷ [])

  unfoldable pub result_list : Content Value → ℤ → Response Value
  result_list content total = json status_ok (
      (codes "code", number (pos status_ok))
      ∷ (codes "rows", content)
      ∷ (codes "msg", text [])
      ∷ (codes "total", number total)
      ∷ [])

  unfoldable pub result_ok_msg : Content Value → Text → Response Value
  result_ok_msg content msg = json status_ok (
      (codes "code", number (pos status_ok))
      ∷ (codes "data", content)
      ∷ (codes "msg", text msg)
      ∷ [])

  unfoldable pub result_fail : Content Value → Response Value
  result_fail err = json status_ok (
      (codes "code", number (pos status_bad_request))
      ∷ (codes "data", nil)
      ∷ (codes "msg", err)
      ∷ [])

  unfoldable pub result_fail_data : Content Value → Content Value → Response Value
  result_fail_data content err = json status_ok (
      (codes "code", number (pos status_bad_request))
      ∷ (codes "data", content)
      ∷ (codes "msg", err)
      ∷ [])

-- A `Controller` is its `Data`.
pub record Controller (Value : Type 0) : Type 0 where
  pub content : Content Value

module _ {Value : Type 0} where
  response_success : Controller Value → Response Value
  unfolding result_ok
  response_success this = result_ok this.content

  response_error : Controller Value → Content Value → Response Value
  unfolding result_fail
  response_error this err = result_fail err

  redirect : Controller Value → Text → Response Value
  redirect this uri = redirects 302 uri

pub record Request : Type 0 where
  pub request_uri : Text
  pub x_requested_with : Text

abbrev pub shtml : Text
shtml = codes ".shtml"

abbrev pub page_name : Text → Text
page_name uri = trim_suffix shtml (trim_left b'/' uri)

abbrev pub is_page : Request → Bool
is_page r = contains_text shtml r.request_uri

abbrev pub is_ajax : Request → Bool
is_ajax r = same_text (codes "XMLHttpRequest") r.x_requested_with

abbrev pub count_of : Option ℤ → ℤ
count_of none = pos 0
count_of (some n) = n

-- `NoMethod`, and `NoRoute` over the map of the counts, where a missing key counts as zero.
module _ {Value : Type 0} where
  pub no_method : Request → Response Value
  no_method r =
      if is_page r
      then html 200 (page_name r.request_uri ++ codes ".html")
      else if is_ajax r
      then json_nil 200
      else nothing

  pub no_route : Map ℤ → Request → Response Value
  unfolding no_method
  no_route urimap r =
      if ltb_ℤ (count_of (find (page_name r.request_uri) urimap)) (pos 0)
      then no_method r
      else if is_page r
      then html 200 (page_name r.request_uri ++ codes ".html")
      else if is_ajax r
      then json_nil 200
      else nothing
