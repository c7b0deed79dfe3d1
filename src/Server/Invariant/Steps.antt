-- ===== src/Server/Invariant/Steps.antt =====
-- src/http/HttpServer.cpp: every handler keeps the registry, so in every run a reactor has a context
-- exactly where conns_ says so.
use http_framework.Prelude.{
  ℕ, ◌+◌, ◌≡◌, refl, ap, sym, ◌∙◌, Bool, true, false, Option, none, some, ◌==◌, ltb, if◌then◌else◌,
  arith, inl, inr, Bool-cases, Option-cases,
}
use http_framework.Prelude.Bytes.{Bytes}
use http_framework.Prelude.Maps.{num_eq}
use http_framework.Request.State.{HttpRequest}
use http_framework.Response.{HttpResponse}
use http_framework.Response.Status.{new_response}
use http_framework.Router.Dispatch.{Table}
use http_framework.Context.{HttpContext, consume_data, enter_in_flight, leave_in_flight}
use http_framework.ThreadPool.{Submitted, queued, refused}
use http_framework.Server.{HttpRequestTask, HttpServer, lookup_context, rearmed_read, woken}
use http_framework.Server.Ids.{conn_id_fd, conn_id_generation}
use http_framework.Server.Registry.{
  set_context, notify_connection_ready, close_connection, conn_id_of, rearm_read,
}
use http_framework.Server.Tasks.{
  mark_context, mark_in_flight, finish_in_flight_task, begin_task, after_submission,
  enqueue_request_task, leave_task, reply_of, process_http_request,
}
use http_framework.Server.Dispatch.{
  Verdict, answered, wait_for_more, consumed, overrun, undecided, carry_out, verdict_of,
  has_current_response, dispatch_buffered_requests,
}
use http_framework.Server.Invariant.{generation_in, IsRegistered}
use http_framework.Server.Invariant.Same.{
  Same, Same-refl, Same-trans, Same-fields, emit-Same, set_context-Same, set_pending-Same,
  IsRegistered-Same,
}
use http_framework.Server.Invariant.Close.{close_connection_id-IsRegistered}

-- A context that was looked up and changed goes back with its generation.
pub put_back-Same :
    (i fd : ℕ) (c c' : HttpContext) (s : HttpServer)
    → lookup_context i fd s ≡ some c
    → c'.connection_generation ≡ c.connection_generation
    → Same s (set_context i fd c' s)
put_back-Same i fd c c' s e same =
    set_context-Same i fd c' s (ap generation_in e ∙ ap some (sym same))

mark_context-Same :
    (i fd generation : ℕ) (enter : Bool) (o : Option HttpContext) (s : HttpServer)
    → lookup_context i fd s ≡ o
    → Same s (mark_context i fd generation enter o s)
unfolding mark_context
mark_context-Same i fd generation enter none s e = Same-refl s
mark_context-Same i fd generation enter (some c) s e =
    elim (Bool-cases (c.connection_generation == generation)) [
      | inr other ↦ rw other (Same-refl s)
      | inl same ↦ rw same (put_back-Same i fd c _ s e (marked enter))
    ]
  where
    marked :
        (b : Bool)
        → (if b then enter_in_flight c else leave_in_flight c).connection_generation
          ≡ c.connection_generation
    marked true = refl
    marked false = refl

pub mark_in_flight-Same :
    (i conn_id : ℕ) (enter : Bool) (s : HttpServer) → Same s (mark_in_flight i conn_id enter s)
unfolding mark_in_flight
mark_in_flight-Same i conn_id enter s = elim (Bool-cases (ltb i s.sub_reactor_count)) [
  | inr out ↦ rw out (Same-refl s)
  | inl within ↦ rw within (
      mark_context-Same i (conn_id_fd conn_id) (conn_id_generation conn_id) enter
        (lookup_context i (conn_id_fd conn_id) s) s refl)
]

begin_task-Same : (i conn_id : ℕ) (s : HttpServer) → Same s (begin_task i conn_id s)
unfolding begin_task
begin_task-Same i conn_id s =
    let counted = record s {
      total_requests = s.total_requests + 1;
      queued_tasks = s.queued_tasks + 1;
    } in
    let marked = mark_in_flight i conn_id true counted in
    Same-trans (Same-fields s counted refl refl refl refl refl) (
      Same-trans (mark_in_flight-Same i conn_id true counted) (
        Same-fields marked (record marked { in_flight_tasks = marked.in_flight_tasks + 1 }) refl
          refl refl refl refl))

finish-Same : (s : HttpServer) → Same s (finish_in_flight_task s)
unfolding finish_in_flight_task
finish-Same s = Same-fields s (finish_in_flight_task s) refl refl refl refl refl

after_submission-Same :
    (i conn_id : ℕ) (r : Submitted HttpRequestTask) (s : HttpServer)
    → Same s (after_submission i conn_id r s)
unfolding after_submission finish_in_flight_task
after_submission-Same i conn_id (queued pool) s =
    Same-fields s (record s { thread_pool = pool }) refl refl refl refl refl
after_submission-Same i conn_id (refused why) s =
    let marked = mark_in_flight i conn_id false s in
    Same-trans (mark_in_flight-Same i conn_id false s)
      (Same-fields marked (after_submission i conn_id (refused why) s) refl refl refl refl refl)

pub enqueue_request_task-Same :
    (i fd conn_id : ℕ) (request : HttpRequest) (response : HttpResponse) (s : HttpServer)
    → Same s (enqueue_request_task i fd conn_id request response s)
unfolding enqueue_request_task
enqueue_request_task-Same i fd conn_id request response s =
    Same-trans (begin_task-Same i conn_id s)
      (after_submission-Same i conn_id _ (begin_task i conn_id s))

pub leave_task-Same : (task : HttpRequestTask) (s : HttpServer) → Same s (leave_task task s)
unfolding leave_task
leave_task-Same task s =
    Same-trans (mark_in_flight-Same task.sub_reactor_index task.conn_id false s) (finish-Same _)

notify-Same :
    (i conn_id : ℕ) (bytes : Bytes) (keep_alive : Bool) (s : HttpServer)
    → Same s (notify_connection_ready i conn_id bytes keep_alive s)
unfolding notify_connection_ready
notify-Same i conn_id bytes keep_alive s =
    Same-trans (set_pending-Same i _ s) (emit-Same (woken i) _)

pub process-Same :
    {E : Type 0} (router : Option (Table E HttpResponse)) (task : HttpRequestTask) (s : HttpServer)
    → Same s (process_http_request router task s)
unfolding process_http_request
process-Same router task s =
    Same-trans
      (notify-Same task.sub_reactor_index task.conn_id
        (reply_of router task.request task.response).bytes
        (reply_of router task.request task.response).keep_alive s)
      (Same-fields _ _ refl refl refl refl refl)

pub rearm_read-Same : (i conn_id : ℕ) (s : HttpServer) → Same s (rearm_read i conn_id s)
unfolding rearm_read
rearm_read-Same i conn_id s = emit-Same (rearmed_read i conn_id) s

pub close_connection-IsRegistered :
    (fd i : ℕ) (s : HttpServer) → IsRegistered s → IsRegistered (close_connection fd i s)
unfolding close_connection
close_connection-IsRegistered fd i s ok = close_connection_id-IsRegistered (conn_id_of i fd s) s ok

consume_data-generation :
    (n : ℕ) (c : HttpContext) → (consume_data n c).connection_generation ≡ c.connection_generation
unfolding consume_data
consume_data-generation n c = ground arith

carry_out-IsRegistered :
    (date : Bytes) (fd i conn_id : ℕ) (c : HttpContext) (v : Verdict) (s : HttpServer)
    → lookup_context i fd s ≡ some c
    → IsRegistered s
    → IsRegistered (carry_out date fd i conn_id c v s)
unfolding carry_out
carry_out-IsRegistered date fd i conn_id c (answered request response) s e ok =
    IsRegistered-Same (enqueue_request_task-Same i fd conn_id request response s) ok
carry_out-IsRegistered date fd i conn_id c wait_for_more s e ok =
    IsRegistered-Same (rearm_read-Same i conn_id s) ok
carry_out-IsRegistered date fd i conn_id c (consumed request n) s e ok =
    IsRegistered-Same
      (Same-trans (put_back-Same i fd c (consume_data n c) s e (consume_data-generation n c))
        (enqueue_request_task-Same i fd conn_id request (new_response date) _))
      ok
carry_out-IsRegistered date fd i conn_id c overrun s e ok = close_connection-IsRegistered fd i s ok
carry_out-IsRegistered date fd i conn_id c undecided s e ok = ok

pub dispatch-IsRegistered :
    (date : Bytes) (fd i conn_id : ℕ) (s : HttpServer)
    → IsRegistered s
    → IsRegistered (dispatch_buffered_requests date fd i conn_id s)
unfolding dispatch_buffered_requests
dispatch-IsRegistered date fd i conn_id s ok = elim (Option-cases (lookup_context i fd s)) [
  | inl e ↦ rw (dispatch_buffered_requests, e) (close_connection-IsRegistered fd i s ok)
  | inr (c, e) ↦
      rw (dispatch_buffered_requests, e)
        (gated (has_current_response c)
          (carry_out-IsRegistered date fd i conn_id c (verdict_of date c s) s e ok))
]
  where
    gated : (b : Bool) {t : HttpServer} → IsRegistered t → IsRegistered (if b then s else t)
    gated true h = ok
    gated false h = h
