-- ===== src/Http/Correlation.antt =====
-- How the id of a request comes back in its response.
use xieyi.Prelude.{
  ℕ, String, ◌≡◌, refl, ◌∙◌, Option, none, some, get_or, str_eq, if◌then◌else◌, arith,
}
use xieyi.Errors.{Exception, domain_error, other, Result, ok, err}
use xieyi.Http.Responses.{
  Request, Response, Endpoint, request_context, app, Defaults, handled_by, or_handled,
  or_server_error, Starlette,
}

-- An error response with the id in its body, and perhaps in its header.
abbrev pub refusal : ℕ → String → String → String → Option String → Response
refusal status code message id header = record {
  status_code = status;
  x_request_id = header;
  error = some (record { code = code; message = message; request_id = id });
}

abbrev pub internal_error : String → Response
internal_error id = refusal 500 "INTERNAL_ERROR" "Internal server error" id none

module _ (defaults : Defaults) (request : Request) (id : String) where
  abbrev unexpected : Option (Request → Response) → Response
  unexpected none = internal_error id
  unexpected (some handler) = record (handler request) { x_request_id = some id }

  -- What a client receives when the endpoint ended so.
  abbrev pub answer : Result Response → Response
  answer (ok response) = record response { x_request_id = some id }
  answer (err (domain_error e)) = refusal e.status_code e.code e.message id (some id)
  answer (err (other name)) =
      if str_eq name "RequestValidationError"
      then refusal 422 "REQUEST_VALIDATION_ERROR" "Request validation failed" id (some id)
      else unexpected (defaults (other name))
  answer (err exc) = unexpected (defaults exc)

module _ (starlette : Starlette) (uuid : String) (endpoint : Endpoint) (request : Request) where
  abbrev pub request_id : String
  request_id = get_or uuid request.x_request_id

  -- The request with its id in its state, as the endpoint gets it.
  abbrev pub identified : Request
  identified = record request { request_id = some request_id }

  abbrev left : Option (Request → Response) → Exception → Response
  left handler exc =
      or_server_error (app uuid) (request_context uuid request (λ q. handled_by handler q exc))

  left-unexpected :
      (handler : Option (Request → Response)) (exc : Exception)
      → left handler exc ≡ unexpected starlette.defaults identified request_id handler
  unfolding app request_context
  left-unexpected none exc = refl
  left-unexpected (some handler) exc = refl

  answered :
      (r : Result Response)
      → or_server_error
          (app uuid)
          (request_context uuid request (λ q. or_handled starlette.defaults (app uuid) q r))
        ≡ answer starlette.defaults identified request_id r
  unfolding app request_context
  answered (ok response) = refl
  answered (err (domain_error e)) = refl
  answered (err (other name)) =
      ground (arith, left-unexpected (starlette.defaults (other name)) (other name))
  answered (err exc) = left-unexpected (starlette.defaults exc) exc

  -- Let the framework nest the handlers and the middleware as it documents. A response carries the id
  -- of its request in its header: that of the endpoint, and also that of a domain error or of a
  -- refused validation, which has the status and the code of the error and the id in the body, and
  -- that of an exception that the framework has a handler of its own for. Only an exception that
  -- neither has one for is answered with status 500 without the header, and the id in the body alone.
  pub serve-answer :
      starlette.serve (app uuid) endpoint request
      ≡ answer starlette.defaults identified request_id (endpoint identified)
  unfolding app request_context
  serve-answer = starlette.stack (app uuid) endpoint request ∙ answered (endpoint identified)
