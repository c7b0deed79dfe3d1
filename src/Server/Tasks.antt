-- ===== src/Server/Tasks.antt =====
-- src/http/HttpServer.cpp: the request tasks: enqueueRequestTask, what a worker does with a task, and the
-- counters of requests in flight. The router's table is an argument; an exception of `E` that leaves
-- it is caught here.
use http_framework.Prelude.{
  ℕ, ◌+◌, Bool, true, false, not, ◌&&◌, Option, none, some, ◌==◌, ltb, if◌then◌else◌,
}
use http_framework.Prelude.Bytes.{Bytes, codes}
use http_framework.Request.State.{HttpRequest, HttpMethod, head, is_keep_alive}
use http_framework.Response.{HttpResponse, set_header, set_json, to_string}
use http_framework.Response.Status.{set_status}
use http_framework.Router.Dispatch.{Outcome, returned, thrown, Table, handle_request}
use http_framework.Context.{HttpContext, enter_in_flight, leave_in_flight}
use http_framework.ThreadPool.{Submitted, queued, refused, enqueue_detached}
use http_framework.Server.{HttpRequestTask, HttpServer, count_down, lookup_context}
use http_framework.Server.Ids.{conn_id_fd, conn_id_generation}
use http_framework.Server.Registry.{set_context, notify_connection_ready}

-- The counting is left out where the connection is gone or its descriptor has a new one.
unfoldable pub mark_context : ℕ → ℕ → ℕ → Bool → Option HttpContext → HttpServer → HttpServer
mark_context i fd generation enter none s = s
mark_context i fd generation enter (some c) s =
    if c.connection_generation == generation
    then set_context i fd (if enter then enter_in_flight c else leave_in_flight c) s
    else s

unfoldable pub mark_in_flight : ℕ → ℕ → Bool → HttpServer → HttpServer
mark_in_flight i conn_id enter s =
    let fd = conn_id_fd conn_id in
    if ltb i s.sub_reactor_count
    then mark_context i fd (conn_id_generation conn_id) enter (lookup_context i fd s) s
    else s

-- finishInFlightTask; the notification of stop() is the condition that waitForInFlightTasks reads.
unfoldable pub finish_in_flight_task : HttpServer → HttpServer
finish_in_flight_task s = record s { in_flight_tasks = count_down s.in_flight_tasks }

unfoldable pub is_drained : HttpServer → Bool
is_drained s = s.in_flight_tasks == 0

-- What is counted before a task is handed to the thread pool.
unfoldable pub begin_task : ℕ → ℕ → HttpServer → HttpServer
begin_task i conn_id s0 =
    let s = record s0 {
      total_requests = s0.total_requests + 1;
      queued_tasks = s0.queued_tasks + 1;
    } in
    let marked = mark_in_flight i conn_id true s in
    record marked { in_flight_tasks = marked.in_flight_tasks + 1 }

-- The pool took the task, or threw; then the counting is undone.
unfoldable pub after_submission : ℕ → ℕ → Submitted HttpRequestTask → HttpServer → HttpServer
after_submission i conn_id (queued pool) s = record s { thread_pool = pool }
after_submission i conn_id (refused why) s =
    let undone = finish_in_flight_task (mark_in_flight i conn_id false s) in
    record undone { queued_tasks = count_down undone.queued_tasks }

abbrev pub request_task : ℕ → ℕ → ℕ → HttpRequest → HttpResponse → HttpRequestTask
request_task i fd conn_id request response = record {
  client_fd = fd;
  request = request;
  response = response;
  sub_reactor_index = i;
  conn_id = conn_id;
}

unfoldable pub enqueue_request_task :
    ℕ → ℕ → ℕ → HttpRequest → HttpResponse → HttpServer → HttpServer
enqueue_request_task i fd conn_id request response s0 =
    let s = begin_task i conn_id s0 in
    after_submission i conn_id
      (enqueue_detached (some (request_task i fd conn_id request response)) s.thread_pool) s

-- The lambda that the pool runs, behind the task itself.
unfoldable pub leave_task : HttpRequestTask → HttpServer → HttpServer
leave_task task s =
    finish_in_flight_task (mark_in_flight task.sub_reactor_index task.conn_id false s)

abbrev pub is_head : HttpMethod → Bool
is_head head = true
is_head _ = false

-- What a task puts in the queue of its reactor: the bytes, and whether the connection is kept.
pub record Reply : Type 0 where
  pub bytes : Bytes
  pub keep_alive : Bool

unfoldable pub final_reply : HttpRequest → HttpResponse → Reply
final_reply request response = record {
  bytes = to_string (is_head request.method) response;
  keep_alive = not response.sent && is_keep_alive request;
}

unfoldable pub error_reply : HttpResponse → Reply
error_reply response = record {
  bytes = to_string false (
      set_header (codes "Connection") (codes "close")
        (set_json (codes "{\"error\": \"Internal Server Error\"}") (set_status 500 response)));
  keep_alive = false;
}

-- The Connection header tells what the request asked for.
abbrev pub connection_value : HttpRequest → Bytes
connection_value request = if is_keep_alive request then codes "keep-alive" else codes "close"

module _ {E : Type 0} where
  unfoldable pub routed_reply : Outcome E (Bool × (HttpRequest × HttpResponse)) → Reply
  unfolding final_reply error_reply
  routed_reply (returned (ok, (request, response))) =
      final_reply request (set_header (codes "Connection") (connection_value request) response)
  routed_reply (thrown e (ok, (request, response))) = error_reply response

  -- processHttpRequest up to the delivery.
  unfoldable pub reply_of : Option (Table E HttpResponse) → HttpRequest → HttpResponse → Reply
  unfolding final_reply
  reply_of router request response =
      if response.sent
      then final_reply request (set_header (codes "Connection") (codes "close") response)
      else elim router [
        | none ↦ final_reply request (
            set_header (codes "Connection") (connection_value request)
              (set_json (codes "{\"error\": \"No router configured\"}") (set_status 404 response)))
        | some table ↦ routed_reply (handle_request table (request, response))
      ]

  unfoldable pub process_http_request :
      Option (Table E HttpResponse) → HttpRequestTask → HttpServer → HttpServer
  process_http_request router task s =
      let reply = reply_of router task.request task.response in
      let notified =
        notify_connection_ready task.sub_reactor_index task.conn_id reply.bytes reply.keep_alive
          s in
      record notified {
        completed_requests = notified.completed_requests + 1;
        queued_tasks = count_down notified.queued_tasks;
      }
