-- ===== src/Http/Responses.antt =====
-- backend/app/main.py: the middleware that gives each request an id, and the exception handlers.
use xieyi.Prelude.{ℕ, String, Option, none, some, ◌≡◌, str_eq, get_or, if◌then◌else◌}
use xieyi.Errors.{DomainError, Exception, domain_error, other, Result, ok, err}

-- A request as the code sees it: the header `X-Request-ID`, and `request.state.request_id`.
pub record Request : Type 0 where
  pub x_request_id : Option String
  pub request_id : Option String

-- `{"error": {"code": …, "message": …, "request_id": …}}`
pub record ErrorBody : Type 0 where
  pub code : String
  pub message : String
  pub request_id : String

pub record Response : Type 0 where
  pub status_code : ℕ
  pub x_request_id : Option String
  pub error : Option ErrorBody

abbrev pub Endpoint : Type 0
Endpoint = Request → Result Response

-- What the application registers with the framework. The state of a request is shared by all that
-- handle it, so the middleware hands the changed request on.
pub record App : Type 0 where
  pub middleware : Request → Endpoint → Result Response × Request
  pub exception_handler : Exception → Option (Request → Response)
  pub server_error_handler : Request → Exception → Response

abbrev error_response : ℕ → String → String → Request → Response
error_response status code message request = record {
  status_code = status;
  x_request_id = none;
  error =
      some (record {
        code = code;
        message = message;
        request_id = get_or "unknown" request.request_id;
      });
}

abbrev pub domain_error_handler : DomainError → Request → Response
domain_error_handler exc = error_response exc.status_code exc.code exc.message

abbrev pub unexpected_error_handler : Request → Exception → Response
unexpected_error_handler request exc =
    error_response 500 "INTERNAL_ERROR" "Internal server error" request

abbrev pub validation_error_handler : Request → Response
validation_error_handler = error_response 422 "REQUEST_VALIDATION_ERROR" "Request validation failed"

-- `@app.exception_handler` of each class but `Exception`.
abbrev pub handler_of : Exception → Option (Request → Response)
handler_of (domain_error exc) = some (domain_error_handler exc)
handler_of (other name) =
    if str_eq name "RequestValidationError" then some validation_error_handler else none
handler_of _ = none

abbrev with_header : String → Result Response → Result Response
with_header request_id (ok response) = ok (record response { x_request_id = some request_id })
with_header request_id (err exc) = err exc

-- `uuid` is the new UUID that stands in for a missing header.
unfoldable pub request_context : String → Request → Endpoint → Result Response × Request
request_context uuid request call_next =
    let request_id = get_or uuid request.x_request_id in
    let request' = record request { request_id = some request_id } in
    (with_header request_id (call_next request'), request')

unfoldable pub app : String → App
unfolding request_context
app uuid = record {
  middleware = request_context uuid;
  exception_handler = handler_of;
  server_error_handler = unexpected_error_handler;
}

-- The handlers that the framework registers itself, which an application's handler of the same class
-- replaces.
abbrev pub Defaults : Type 0
Defaults = Exception → Option (Request → Response)

abbrev pub handled_by : Option (Request → Response) → Request → Exception → Result Response
handled_by none request exc = err exc
handled_by (some handler) request exc = ok (handler request)

abbrev pub or_handled : Defaults → App → Request → Result Response → Result Response
or_handled defaults a request (ok response) = ok response
or_handled defaults a request (err exc) = elim (a.exception_handler exc) [
  | some handler ↦ ok (handler request)
  | none ↦ handled_by (defaults exc) request exc
]

abbrev pub or_server_error : App → Result Response × Request → Response
or_server_error a (ok response, request) = response
or_server_error a (err exc, request) = a.server_error_handler request exc

-- Starlette, with `app_debug` off. It documents its middleware stack: the handler of `Exception` stands
-- outside the application's middleware, and the other exception handlers inside of it, round the
-- endpoint. `defaults` are its own exception handlers, of `HTTPException` among others.
pub record Starlette : Type 0 where
  pub defaults : Defaults
  pub serve : App → Endpoint → Request → Response
  pub stack :
      (a : App) (endpoint : Endpoint) (request : Request)
      → serve a endpoint request
        ≡ or_server_error a (a.middleware request (λ r. or_handled defaults a r (endpoint r)))
