-- ===== src/Server/Dispatch/Refusals.antt =====
-- src/http/HttpServer.cpp: the requests that are answered without the router.
use http_framework.Prelude.{ℕ, ◌<◌, ◌≡◌, refl, Bool, true, false, not, Option}
use http_framework.Prelude.Bytes.{Bytes, codes}
use http_framework.Request.State.{HttpRequest}
use http_framework.Request.Parse.{Parsed, accepted, rejected, body_start}
use http_framework.Response.{HttpResponse, get_header}
use http_framework.Router.Dispatch.{Table}
use http_framework.Server.Tasks.{reply_of}
use http_framework.Server.Dispatch.{Verdict, answered, wait_for_more, consumed, overrun, undecided}

-- No fault that the parser can tell is found in the request.
abbrev pub IsFaultless : HttpRequest → Type 0
IsFaultless request =
    (request.body_too_large ≡ false)
    × (request.conflicting_framing ≡ false)
    × (request.malformed ≡ false)
    × (request.content_length_valid ≡ true)

-- The status of an answer to what the parser makes of so many held bytes, with a limit for heads.
pub data IsRefusal (max_header size : ℕ) : Parsed → ℕ → Type 0 where
  too_large :
      {request : HttpRequest}
      → request.body_too_large ≡ true
      → IsRefusal max_header size (rejected request) 413
  conflicting :
      {request : HttpRequest}
      → request.body_too_large ≡ false
      → request.conflicting_framing ≡ true
      → IsRefusal max_header size (rejected request) 400
  bad_syntax :
      {request : HttpRequest}
      → request.body_too_large ≡ false
      → request.malformed ≡ true
      → IsRefusal max_header size (rejected request) 400
  bad_length :
      {request : HttpRequest}
      → request.body_too_large ≡ false
      → request.content_length_valid ≡ false
      → IsRefusal max_header size (rejected request) 400
  -- Not whole yet, with more bytes than a head may have.
  too_long :
      {request : HttpRequest}
      → IsFaultless request
      → max_header < size
      → IsRefusal max_header size (rejected request) 431
  long_head :
      {request : HttpRequest}
      → max_header < body_start request
      → IsRefusal max_header size (accepted request) 431

not-true : (b : Bool) → not b ≡ true → b ≡ false
not-true true e = cc
not-true false e = refl

abbrev IsClosing : {E : Type 0} → Option (Table E HttpResponse) → ℕ → ℕ → Parsed → Verdict → Type 0
IsClosing router max_header size p (answered request response) =
    IsRefusal max_header size p response.status_code
    × (response.sent ≡ true)
    × (get_header (codes "Connection") response ≡ codes "close")
    × ((reply_of router request response).keep_alive ≡ false)
IsClosing router max_header size p wait_for_more = Unit {0}
IsClosing router max_header size p (consumed request n) = Unit {0}
IsClosing router max_header size p overrun = Unit {0}
IsClosing router max_header size p undecided = Unit {0}
