-- ===== src/Api.antt =====
-- internal/api: `Do` and `getURL` of request.go; the children have the client of client.go. The JSON
-- encoder and decoder and the HTTP client are outside; `Transport` holds what they return. An
-- error's context is left out.
pub mod Calls
pub mod Targets
use snake_runner.Base.{
  ℕ, ℤ, leb, nat_beq, Text, text_eq, codes, List, [], ◌∷◌, ◌++◌, Option, none, some, Bool, true,
  false, ◌||◌, is_empty, insert, trim_slash, if◌then◌else◌, ◌≡◌, arith, ◌⊎◌, ◌↔◌,
}
use snake_runner.Errors.{Error, message, format}
use snake_runner.Masker.Replace.{contains}
use snake_runner.Status.{Status}

-- The payloads of internal/requests: `TaskUpdate`, `Heartbeat`, `RunnerRegister`, `Task` and
-- `LogsPush`.
pub data Payload : Type 0 where
  task_update : Status → Option ℕ → Option ℕ → Payload
  heartbeat : Option Text → Payload
  runner_register : Text → Text → Payload
  task : List ℤ → Bool → Text → Payload
  logs_push : Text → Payload

pub record Request : Type 0 where
  pub base_url : Text
  pub method : Text
  pub path : Text
  pub payload : Option Payload
  pub expected_statuses : List ℕ
  pub has_response : Bool
  pub headers : List (Text × Text)

-- What is given to the HTTP client.
pub record HttpRequest : Type 0 where
  pub method : Text
  pub url : Text
  pub headers : List (Text × Text)
  pub body : Option Payload

pub record Transport : Type 0 where
  -- the encoding of a payload, `http.NewRequest`, the exchange, and the reading of the body
  pub encode : Payload → Option Error
  pub create : Option Error
  pub exchange : HttpRequest → Option Error
  pub read : Option Error
  -- the status code of the response
  pub status : ℕ
  -- the body as a `RemoteError`, or the decoder's error
  pub remote : Error × Option Error
  -- the decoder's error on the response that is wanted
  pub decode : Option Error

-- `getURL`
unfoldable pub get_url : Request → Text
unfolding trim_slash
get_url request =
    trim_slash (
      if contains request.base_url (codes "://")
      then request.base_url
      else codes "http://" ++ request.base_url)
    ++ request.path

-- `setContentTypeJSON`, where there is a payload.
abbrev content_type : Option Payload → List (Text × Text) → List (Text × Text)
content_type none headers = headers
content_type (some payload) headers =
    insert (codes "Content-Type") (codes "application/json") headers

-- The request that `Do` sends.
unfoldable pub http_request : Request → HttpRequest
unfolding get_url
http_request request = record {
  method = if is_empty request.method then codes "GET" else request.method;
  url = get_url request;
  headers = content_type request.payload request.headers;
  body = request.payload;
}

abbrev pub encoding : Transport → Option Payload → Option Error
encoding t none = none
encoding t (some payload) = t.encode payload

unfoldable pub is_expected : ℕ → List ℕ → Bool
is_expected status [] = false
is_expected status (expected ∷ rest) = nat_beq status expected || is_expected status rest

abbrev is_nil : List ℕ → Bool
is_nil [] = true
is_nil (status ∷ statuses) = false

-- The next step, unless there is an error.
abbrev then_do : Option Error → Text → Option Error → Option Error
then_do none text next = next
then_do (some error) text next = some (format error text)

-- What the status says: an error, if there is one.
unfoldable pub check_status : Request → Transport → Option Error
unfolding is_expected
check_status request t =
    if is_expected t.status request.expected_statuses
    then none
    else if leb 400 t.status
    then elim t.remote.1 [
      | none ↦ some t.remote.0
      | some error ↦ some (format error (codes "unable to unmarshal error as JSON error response"))
    ]
    else if is_nil request.expected_statuses
    then none
    else some (message (codes "unexpected status code"))

unfoldable pub read_response : Request → Transport → Option Error
read_response request t =
    if request.has_response
    then then_do t.decode (codes "unable to unmarshal JSON response") none
    else none

-- `Do`
unfoldable pub do_request : Request → Transport → Option Error
unfolding check_status read_response http_request
do_request request t =
    then_do (encoding t request.payload) (codes "unable to marshal request body") (
      then_do t.create (codes "unable to create http request") (
        then_do (t.exchange (http_request request)) (codes "unable to make http request") (
          then_do t.read (codes "unable to read response body") (elim (check_status request t) [
            | some error ↦ some error
            | none ↦ read_response request t
          ]))))

-- A status that lets the request succeed: one of the expected ones or, where none is named, any
-- below 400.
abbrev pub IsGood : Request → ℕ → Type 0
IsGood request status =
    (is_expected status request.expected_statuses ≡ true)
    ⊎ ((request.expected_statuses ≡ []) × (leb 400 status ≡ false))

check_status_lem :
    (request : Request) (t : Transport) → (check_status request t ≡ none) ↔ IsGood request t.status
unfolding check_status is_expected
check_status_lem request t = ground arith

-- A request returns no error if and only if the payload, if there is one, was encoded, the request
-- was made and sent, the body was read, the status is one of the expected ones or, where none is
-- named, below 400, and the response, if it is wanted, was decoded.
pub do_request_lem :
    (request : Request) (t : Transport)
    → (do_request request t ≡ none) ↔ (
        (encoding t request.payload ≡ none)
        × (t.create ≡ none)
        × (t.exchange (http_request request) ≡ none)
        × (t.read ≡ none)
        × IsGood request t.status
        × ((request.has_response ≡ false) ⊎ (t.decode ≡ none)))
unfolding do_request read_response
do_request_lem request t = ground (arith, check_status_lem request t)
