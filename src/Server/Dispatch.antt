-- ===== src/Server/Dispatch.antt =====
-- src/http/HttpServer.cpp: dispatchBufferedRequests, which parses the bytes of a connection and hands
-- one request to the workers, or answers what cannot be one.
pub mod Decided
pub mod HeldBytes
pub mod Pipelining
pub mod Refusals
use http_framework.Prelude.{
  ℕ, ◌+◌, ◌%◌, Bool, true, false, not, ◌||◌, Option, none, some, [], ltb, if◌then◌else◌, length,
}
use http_framework.Prelude.Bytes.{Bytes, codes}
use http_framework.Request.Text.{u64_mod}
use http_framework.Request.State.{HttpRequest, new_request}
use http_framework.Request.Parse.{Parsed, accepted, rejected, out_of_fuel, parse, body_start}
use http_framework.Response.{HttpResponse, set_header, set_json}
use http_framework.Response.Status.{new_response, set_status_phrase, mark_finalized}
use http_framework.Context.{HttpContext, peek_data, consume_data}
use http_framework.Server.{HttpServer, lookup_context}
use http_framework.Server.Registry.{set_context, close_connection, rearm_read}
use http_framework.Server.Tasks.{enqueue_request_task}

-- A response that the framework decides; the connection is closed behind it.
abbrev pub closing_response : Bytes → ℕ → Bytes → Bytes → HttpResponse
closing_response date status phrase json = mark_finalized (
    set_header (codes "Connection") (codes "close")
      (set_json json (set_status_phrase status phrase (new_response date))))

-- What is done with the bytes that are there.
pub data Verdict : Type 0 where
  -- Answered and closed, whatever follows.
  answered : HttpRequest → HttpResponse → Verdict
  -- More bytes are needed.
  wait_for_more : Verdict
  -- The request takes so many bytes.
  consumed : HttpRequest → ℕ → Verdict
  -- More bytes than there are would be taken.
  overrun : Verdict
  -- The parser's loops ran out of fuel, which they do not.
  undecided : Verdict

abbrev pub header_too_large : Bytes → HttpRequest → Verdict
header_too_large date request = answered request (
    closing_response date 431 (codes "Request Header Fields Too Large")
      (codes "{\"error\":\"Request header too large\"}"))

unfoldable pub judge_rejected : Bytes → ℕ → ℕ → HttpRequest → Verdict
judge_rejected date max_header size request =
    if request.body_too_large
    then answered request (
        closing_response date 413 (codes "Payload Too Large")
          (codes "{\"error\":\"Request body too large\"}"))
    else if request.conflicting_framing
    then answered request (
        closing_response date 400 (codes "Bad Request")
          (codes "{\"error\":\"Conflicting Content-Length and Transfer-Encoding\"}"))
    else if request.malformed
    then answered request (closing_response date 400 [] (codes "{\"error\":\"Malformed request\"}"))
    else if not request.content_length_valid
    then answered request
        (closing_response date 400 [] (codes "{\"error\":\"Invalid Content-Length\"}"))
    else if ltb max_header size
    then header_too_large date request
    else wait_for_more

-- headerEnd + sepLen + bodyConsumed, as a size_t.
abbrev pub taken_bytes : HttpRequest → ℕ
taken_bytes request = (body_start request + request.body_consumed) % u64_mod

unfoldable pub judge_accepted : Bytes → ℕ → ℕ → HttpRequest → Verdict
judge_accepted date max_header size request =
    if ltb max_header (body_start request)
    then header_too_large date request
    else if ltb size (taken_bytes request)
    then overrun
    else consumed request (taken_bytes request)

unfoldable pub judge : Bytes → ℕ → ℕ → Parsed → Verdict
unfolding judge_accepted judge_rejected
judge date max_header size (accepted request) = judge_accepted date max_header size request
judge date max_header size (rejected request) = judge_rejected date max_header size request
judge date max_header size out_of_fuel = undecided

-- The request is parsed with the server's limit of the body.
abbrev pub fresh_request : HttpServer → HttpRequest
fresh_request s = record new_request { max_body_size = s.max_request_body_bytes }

unfoldable pub verdict_of : Bytes → HttpContext → HttpServer → Verdict
verdict_of date c s =
    judge date s.max_request_header_bytes (length (peek_data c))
      (parse (fresh_request s) (peek_data c))

unfoldable pub carry_out : Bytes → ℕ → ℕ → ℕ → HttpContext → Verdict → HttpServer → HttpServer
carry_out date fd i conn_id c (answered request response) s =
    enqueue_request_task i fd conn_id request response s
carry_out date fd i conn_id c wait_for_more s = rearm_read i conn_id s
carry_out date fd i conn_id c (consumed request n) s =
    enqueue_request_task i fd conn_id request (new_response date)
      (set_context i fd (consume_data n c) s)
carry_out date fd i conn_id c overrun s = close_connection fd i s
carry_out date fd i conn_id c undecided s = s

abbrev pub has_current_response : HttpContext → Bool
has_current_response c = elim c.current_response [ none ↦ false | some response ↦ true ]

unfoldable pub dispatch_buffered_requests : Bytes → ℕ → ℕ → ℕ → HttpServer → HttpServer
dispatch_buffered_requests date fd i conn_id s = elim (lookup_context i fd s) [
  | none ↦ close_connection fd i s
  | some c ↦
      if has_current_response c then s else carry_out date fd i conn_id c (verdict_of date c s) s
]
