-- ===== src/Server/Dispatch/Decided.antt =====
-- src/http/HttpServer.cpp: dispatchBufferedRequests decides on every buffer.
use http_framework.Prelude.{ℕ, ◌+◌, ◌≤◌, ◌<◌, ◌≡◌, ◌≢◌, refl, arith, length}
use http_framework.Prelude.Bytes.{Bytes}
use http_framework.Prelude.Maps.{num_eq}
use http_framework.Request.Text.{u64_mod}
use http_framework.Request.State.{HttpRequest}
use http_framework.Request.Parse.{Parsed, accepted, rejected, out_of_fuel, parse, body_start}
use http_framework.Request.Parse.Bounds.{parse_bounds}
use http_framework.Request.Parse.Totality.{parse-ends}
use http_framework.Context.{HttpContext, peek_data}
use http_framework.Server.{HttpServer}
use http_framework.Server.Dispatch.{
  Verdict, overrun, undecided, judge, judge_accepted, judge_rejected, fresh_request, verdict_of,
}

abbrev pub IsDecided : Verdict → Type 0
IsDecided v = (v ≢ overrun) × (v ≢ undecided)

judge_rejected-IsDecided :
    (date : Bytes) (max_header size : ℕ) (request : HttpRequest)
    → IsDecided (judge_rejected date max_header size request)
unfolding judge_rejected
judge_rejected-IsDecided date max_header size request = (λ e. ground arith, λ e. ground arith)

judge_accepted-IsDecided :
    (date : Bytes) (max_header size : ℕ) (request : HttpRequest)
    → body_start request + request.body_consumed ≤ size
    → size < u64_mod
    → IsDecided (judge_accepted date max_header size request)
unfolding judge_accepted
judge_accepted-IsDecided date max_header size request h w = (λ e. ground arith, λ e. ground arith)

judge-IsDecided :
    (date : Bytes) (max_header : ℕ) (r : HttpRequest) (raw : Bytes) (p : Parsed)
    → length raw + r.max_body_size + 4 < u64_mod
    → parse r raw ≡ p
    → IsDecided (judge date max_header (length raw) p)
unfolding judge
judge-IsDecided date max_header r raw (accepted q) w e =
    judge_accepted-IsDecided date max_header (length raw) q (parse_bounds r q raw w e).1
      (omega arith)
judge-IsDecided date max_header r raw (rejected q) w e =
    judge_rejected-IsDecided date max_header (length raw) q
judge-IsDecided date max_header r raw out_of_fuel w e = absurd (parse-ends r raw w e)

-- While the held bytes and the body limit stay four bytes below 2^64, every buffer is decided: the
-- parser's loops end, and the guard against taking more bytes than there are never closes the
-- connection.
pub verdict_of-IsDecided :
    (date : Bytes) (c : HttpContext) (s : HttpServer)
    → length (peek_data c) + s.max_request_body_bytes + 4 < u64_mod
    → IsDecided (verdict_of date c s)
unfolding verdict_of
verdict_of-IsDecided date c s w =
    judge-IsDecided date s.max_request_header_bytes (fresh_request s) (peek_data c)
      (parse (fresh_request s) (peek_data c)) w refl
