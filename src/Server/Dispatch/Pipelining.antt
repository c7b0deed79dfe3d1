-- ===== src/Server/Dispatch/Pipelining.antt =====
-- src/http/HttpServer.cpp: of the bytes of a connection, dispatchBufferedRequests takes exactly the first
-- request's.
use http_framework.Prelude.{
  ℕ, ◌+◌, ◌≤◌, ◌<◌, ◌≡◌, refl, ap, ◌∙◌, true, false, none, some, [], ◌∷◌, ◌++◌, ◌==◌, arith, length,
  length-append, drop, drop-append_length, le→ltb-false,
}
use http_framework.Prelude.Bytes.{Bytes}
use http_framework.Prelude.Maps.{num_eq}
use http_framework.Request.Text.{u64_mod}
use http_framework.Request.State.{HttpRequest}
use http_framework.Request.Parse.{accepted, parse, body_start}
use http_framework.Request.Parse.Stability.{parse-append, extended}
use http_framework.Response.Status.{new_response}
use http_framework.Context.{HttpContext, peek_data, consume_data}
use http_framework.Context.Queue.{peek_data-consume_data}
use http_framework.Server.{HttpServer, lookup_context}
use http_framework.Server.Registry.{set_context}
use http_framework.Server.Tasks.{request_task, enqueue_request_task}
use http_framework.Server.Dispatch.{
  consumed, judge, judge_accepted, taken_bytes, fresh_request, verdict_of, carry_out,
  has_current_response, dispatch_buffered_requests,
}
use http_framework.Server.Dispatch.HeldBytes.{
  held_bytes, held_bytes-set_context, held_bytes-enqueue, enqueue_request_task-tasks,
}

judge_whole :
    (date : Bytes) (max_header size n : ℕ) (q : HttpRequest)
    → taken_bytes q ≡ n
    → body_start q ≤ max_header
    → n ≤ size
    → judge_accepted date max_header size q ≡ consumed q n
unfolding judge_accepted
judge_whole date max_header size n q takes short within =
    rw (le→ltb-false max_header (body_start q) short)
      (rw takes (rw (le→ltb-false size n within) refl))

dispatch_open :
    (date : Bytes) (i fd conn_id : ℕ) (c : HttpContext) (s : HttpServer)
    → lookup_context i fd s ≡ some c
    → c.current_response ≡ none
    → dispatch_buffered_requests date fd i conn_id s
      ≡ carry_out date fd i conn_id c (verdict_of date c s) s
unfolding dispatch_buffered_requests
dispatch_open date i fd conn_id c s there quiet =
    let no_response : has_current_response c ≡ false = rw quiet refl in
    rw (dispatch_buffered_requests, there) (rw no_response refl)

module _ (date : Bytes) (i fd conn_id : ℕ) (c : HttpContext) (s : HttpServer) (q : HttpRequest)
    (raw more : Bytes) where
  abbrev grown : HttpRequest
  grown = extended q (raw ++ more) more

  -- The verdict on a whole request with more bytes behind it.
  verdict-whole :
      length (raw ++ more) + s.max_request_body_bytes + 4 < u64_mod
      → q.header_end_sep_len ≡ 4
      → peek_data c ≡ raw ++ more
      → parse (fresh_request s) raw ≡ accepted q
      → body_start q + q.body_consumed ≡ length raw
      → body_start q ≤ s.max_request_header_bytes
      → verdict_of date c s ≡ consumed grown (length raw)
  unfolding verdict_of judge judge_accepted
  verdict-whole w four held whole takes short =
      let parsed = parse-append (fresh_request s) q raw more w four whole in
      ap (λ b. judge date s.max_request_header_bytes (length b) (parse (fresh_request s) b)) held
      ∙ ap (judge date s.max_request_header_bytes (length (raw ++ more))) parsed
      ∙ judge_whole date s.max_request_header_bytes (length (raw ++ more)) (length raw) grown
          (omega (arith, takes, w, length-append raw more)) short
          (omega (arith, length-append raw more))

  -- Where a connection has no response under way, holds the bytes of one whole request whose head ends in
  -- CRLF CRLF and is within the limit, and other bytes behind them, one task with that request joins
  -- the queue of the running pool, and the connection holds exactly the bytes behind the request.
  pub dispatch-first :
      length (raw ++ more) + s.max_request_body_bytes + 4 < u64_mod
      → q.header_end_sep_len ≡ 4
      → lookup_context i fd s ≡ some c
      → c.current_response ≡ none
      → peek_data c ≡ raw ++ more
      → parse (fresh_request s) raw ≡ accepted q
      → body_start q + q.body_consumed ≡ length raw
      → body_start q ≤ s.max_request_header_bytes
      → s.thread_pool.running ≡ true
      → (held_bytes i fd (dispatch_buffered_requests date fd i conn_id s) ≡ some more)
        × ((dispatch_buffered_requests date fd i conn_id s).thread_pool.tasks
            ≡ s.thread_pool.tasks ++ request_task i fd conn_id grown (new_response date) ∷ [])
  unfolding carry_out
  dispatch-first w four there quiet held whole takes short on =
      let taken = set_context i fd (consume_data (length raw) c) s in
      let response = new_response date in
      let after : dispatch_buffered_requests date fd i conn_id s
          ≡ enqueue_request_task i fd conn_id grown response taken =
        dispatch_open date i fd conn_id c s there quiet
        ∙ ap (λ v. carry_out date fd i conn_id c v s)
            (verdict-whole w four held whole takes short) in
      let left : peek_data (consume_data (length raw) c) ≡ more =
        peek_data-consume_data (length raw) c
        ∙ ap (drop (length raw)) held
        ∙ drop-append_length raw more in
      let same : (fd == fd) ≡ true = ground arith in
      rw after (
        held_bytes-enqueue i fd conn_id grown response taken fd
            ∙ held_bytes-set_context i fd (consume_data (length raw) c) s fd
            ∙ rw same (ap some left),
        enqueue_request_task-tasks i fd conn_id grown response taken on,
      )
