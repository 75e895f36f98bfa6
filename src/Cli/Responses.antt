-- ===== src/Cli/Responses.antt =====
-- api_response.go and api_response_typed.go: what the client makes of an HTTP response. An error
-- is a constructor with what its message names; `Print` returns the lines that it prints.
use mittnite.Prelude.{
  ℕ, String, Option, none, some, List, [], ◌∷◌, Result, ok, err, leb, ◌==◌, string_eq,
  if◌then◌else◌,
}
use mittnite.Cli.Text.{trim_space, before}

pub data ApiError : Type 0 where
  not_sent unknown_action unreadable_body bad_json plain_text unknown_content_type not_marshalled :
      String → ApiError
  unexpected_status : ℕ → String → ApiError

-- `body` is what reading it to the end answers.
pub record HttpResponse : Type 0 where
  pub status_code : ℕ
  pub content_type : String
  pub body : Result String String

pub record CommonApiResponse : Type 0 where
  pub status_code : ℕ
  pub body : String
  pub error : Option ApiError
  pub content_type : String

-- A response with an error and nothing else.
unfoldable pub error_response : ApiError → CommonApiResponse
error_response e = record { status_code = 0; body = ""; error = some e; content_type = "" }

unfoldable pub status_error : ℕ → String → Option ApiError
status_error code text =
    if leb 400 code then some (unexpected_status code (trim_space text)) else none

-- An unreadable body is only logged.
unfoldable pub with_body : HttpResponse → Result String String → CommonApiResponse
unfolding status_error
with_body r (err e) = record {
  status_code = r.status_code;
  body = "";
  error = none;
  content_type = "";
}
with_body r (ok text) = record {
  status_code = r.status_code;
  body = text;
  error = status_error r.status_code text;
  content_type = r.content_type;
}

-- NewAPIResponse
unfoldable pub new_api_response : Result String HttpResponse → CommonApiResponse
unfolding with_body error_response
new_api_response (err e) = error_response (not_sent e)
new_api_response (ok r) = with_body r r.body

-- The lines of CommonAPIResponse.Print for a body; `pretty` is json.Indent with the colours.
unfoldable pub printed :
    (String → Result String String) → String → String → Result ApiError (List String)
printed pretty content_type text =
    if content_type == "application/json"
    then elim (pretty text) [ ok out ↦ ok (out ∷ []) | err e ↦ err (bad_json e) ]
    else ok (text ∷ [])

unfoldable pub printed_unless :
    (String → Result String String)
    → Option ApiError
    → CommonApiResponse
    → Result ApiError (List String)
unfolding printed
printed_unless pretty (some e) r = err e
printed_unless pretty none r = if r.body == "" then ok [] else printed pretty r.content_type r.body

-- CommonAPIResponse.Print
unfoldable pub print_response :
    (String → Result String String) → CommonApiResponse → Result ApiError (List String)
unfolding printed_unless
print_response pretty r = printed_unless pretty r.error r

pub record TypedApiResponse (B : Type 0) : Type 0 where
  pub status_code : ℕ
  pub body : B
  pub error : Option ApiError
  pub content_type : String

-- `blank` is the zero value of the type.
module _ {B : Type 0} (decode : String → Result String B) (blank : B) where
  unfoldable pub typed_error : ApiError → TypedApiResponse B
  typed_error e = record { status_code = 0; body = blank; error = some e; content_type = "" }

  failed_with : HttpResponse → ApiError → TypedApiResponse B
  failed_with r e = record {
    status_code = r.status_code;
    body = blank;
    error = some e;
    content_type = r.content_type;
  }

  unfoldable pub decoded : HttpResponse → Result String B → TypedApiResponse B
  unfolding failed_with
  decoded r (err e) = failed_with r (bad_json e)
  decoded r (ok b) = record {
    status_code = r.status_code;
    body = b;
    error = none;
    content_type = r.content_type;
  }

  -- The switch on the media type.
  unfoldable pub by_media_type : HttpResponse → String → String → TypedApiResponse B
  unfolding decoded failed_with
  by_media_type r media text =
      if media == "application/json"
      then decoded r (decode text)
      else (if media == "text/plain"
          then failed_with r (plain_text (trim_space text))
          else failed_with r (unknown_content_type media))

  unfoldable pub read_body : HttpResponse → Result String String → TypedApiResponse B
  unfolding by_media_type failed_with
  read_body r (err e) = failed_with r (unreadable_body e)
  read_body r (ok text) = by_media_type r (before b';' r.content_type) text

  -- NewTypedAPIResponse: the status code is kept, not looked at.
  unfoldable pub new_typed_api_response : Result String HttpResponse → TypedApiResponse B
  unfolding read_body typed_error
  new_typed_api_response (err e) = typed_error (not_sent e)
  new_typed_api_response (ok r) = read_body r r.body

module _ {B : Type 0} (encode : B → Result String String) (describe : ApiError → String) where
  pretty_body :
      (String → Result String String) → Result String String → Result ApiError (List String)
  pretty_body pretty (err e) = err (not_marshalled e)
  pretty_body pretty (ok text) = elim (pretty text) [
    | ok out ↦ ok (out ∷ [])
    | err e ↦ err (bad_json e)
  ]

  print_unless :
      (String → Result String String) → Option ApiError → B → Result ApiError (List String)
  unfolding pretty_body
  print_unless pretty (some e) b = ok (describe e ∷ [])
  print_unless pretty none b = pretty_body pretty (encode b)

  -- TypedAPIResponse.Print: an error is printed and not returned.
  pub print_typed :
      (String → Result String String) → TypedApiResponse B → Result ApiError (List String)
  unfolding print_unless
  print_typed pretty r = print_unless pretty r.error r.body
