-- ===== src/Server/Output/Quiet/Steps.antt =====
-- src/http/HttpServer.cpp: the close of a connection and the dispatch of a request send nothing and put no
-- response under way.
use http_framework.Prelude.{
  ℕ, ◌+◌, ◌≡◌, refl, Bool, true, false, not, Option, none, some, ◌==◌, leb, ltb, if◌then◌else◌, inl,
  inr, Bool-cases, Option-cases,
}
use http_framework.Prelude.Bytes.{Bytes}
use http_framework.Prelude.Maps.{lookup, num_eq}
use http_framework.Request.State.{HttpRequest}
use http_framework.Response.{HttpResponse}
use http_framework.Response.Status.{new_response}
use http_framework.Context.{HttpContext, consume_data, data_size, enter_in_flight, leave_in_flight}
use http_framework.ThreadPool.{Submitted, queued, refused}
use http_framework.Server.{
  FdBinding, HttpRequestTask, removed, closed, HttpServer, emit, lookup_context,
}
use http_framework.Server.Ids.{conn_id_fd, conn_id_generation}
use http_framework.Server.Registry.{
  set_context, erase_context, bind, unbound, drop_pending_responses, without_fd, tear_down,
  tear_down_owned, close_bound, close_found, close_connection_id, close_connection, conn_id_of,
}
use http_framework.Server.Tasks.{
  mark_context, mark_in_flight, begin_task, after_submission, finish_in_flight_task,
  enqueue_request_task,
}
use http_framework.Server.Dispatch.{
  Verdict, answered, wait_for_more, consumed, overrun, undecided, verdict_of, carry_out,
  has_current_response, dispatch_buffered_requests,
}
use http_framework.Server.Output.Quiet.{
  sent_on, IsQuiet, IsQuiet-refl, IsQuiet-trans, IsQuiet-if, put_back-IsQuiet,
  erase_context-IsQuiet, set_pending-IsQuiet, fields-IsQuiet, emit-IsQuiet, rearm_read-IsQuiet,
}

module _ (j f : ℕ) where
  tear_down-IsQuiet : (i fd : ℕ) (s : HttpServer) → IsQuiet j f s (tear_down i fd s)
  unfolding tear_down drop_pending_responses sent_on
  tear_down-IsQuiet i fd s =
      let off = emit (removed i fd) s in
      let erased = erase_context i fd off in
      let dropped = drop_pending_responses i fd erased in
      IsQuiet-trans j f (emit-IsQuiet j f (removed i fd) s refl) (
        IsQuiet-trans j f (erase_context-IsQuiet j f i fd off) (
          IsQuiet-trans j f
            (set_pending-IsQuiet j f i (without_fd fd (erased.reactors i).pending_responses) erased)
            (IsQuiet-trans j f (emit-IsQuiet j f (closed fd) dropped refl)
              (fields-IsQuiet j f (emit (closed fd) dropped) (tear_down i fd s) refl refl))))

  close_owned-IsQuiet :
      (o : Option ℕ) (fd : ℕ) (s : HttpServer) → IsQuiet j f s (tear_down_owned o fd s)
  close_owned-IsQuiet none fd s = IsQuiet-refl j f s
  close_owned-IsQuiet (some i) fd s =
      IsQuiet-if j f (ltb i s.sub_reactor_count) (tear_down-IsQuiet i fd s) (IsQuiet-refl j f s)

  close_found-IsQuiet :
      (o : Option FdBinding) (fd generation : ℕ) (s : HttpServer)
      → IsQuiet j f s (close_found o fd generation s)
  unfolding close_found close_bound
  close_found-IsQuiet none fd generation s = IsQuiet-refl j f s
  close_found-IsQuiet (some b) fd generation s =
      let free = bind fd (unbound b) s in
      IsQuiet-if j f (not b.context) (IsQuiet-refl j f s) (
        IsQuiet-if j f (b.generation == generation)
          (IsQuiet-trans j f (fields-IsQuiet j f s free refl refl)
            (close_owned-IsQuiet b.owner fd free))
          (fields-IsQuiet j f s _ refl refl))

  pub close_connection-IsQuiet :
      (fd i : ℕ) (s : HttpServer) → IsQuiet j f s (close_connection fd i s)
  unfolding close_connection close_connection_id
  close_connection-IsQuiet fd i s =
      let conn_id = conn_id_of i fd s in
      IsQuiet-if j f (conn_id == 0) (IsQuiet-refl j f s) (
        close_found-IsQuiet (lookup (conn_id_fd conn_id) s.conns) (conn_id_fd conn_id)
          (conn_id_generation conn_id) s)

  mark_context-IsQuiet :
      (i fd generation : ℕ) (enter : Bool) (o : Option HttpContext) (s : HttpServer)
      → lookup_context i fd s ≡ o
      → IsQuiet j f s (mark_context i fd generation enter o s)
  unfolding mark_context
  mark_context-IsQuiet i fd generation enter none s e = IsQuiet-refl j f s
  mark_context-IsQuiet i fd generation enter (some c) s e =
      IsQuiet-if j f (c.connection_generation == generation)
        (put_back-IsQuiet j f i fd c (if enter then enter_in_flight c else leave_in_flight c) s e
          (marked enter c))
        (IsQuiet-refl j f s)
    where
      marked :
          (enter : Bool) (c : HttpContext)
          → (if enter then enter_in_flight c else leave_in_flight c).current_response
            ≡ c.current_response
      marked true c = refl
      marked false c = refl

  mark_in_flight-IsQuiet :
      (i conn_id : ℕ) (enter : Bool) (s : HttpServer)
      → IsQuiet j f s (mark_in_flight i conn_id enter s)
  unfolding mark_in_flight
  mark_in_flight-IsQuiet i conn_id enter s =
      IsQuiet-if j f (ltb i s.sub_reactor_count)
        (mark_context-IsQuiet i (conn_id_fd conn_id) (conn_id_generation conn_id) enter
          (lookup_context i (conn_id_fd conn_id) s) s refl)
        (IsQuiet-refl j f s)

  begin_task-IsQuiet : (i conn_id : ℕ) (s : HttpServer) → IsQuiet j f s (begin_task i conn_id s)
  unfolding begin_task
  begin_task-IsQuiet i conn_id s =
      let counted = record s {
        total_requests = s.total_requests + 1;
        queued_tasks = s.queued_tasks + 1;
      } in
      let marked = mark_in_flight i conn_id true counted in
      IsQuiet-trans j f (fields-IsQuiet j f s counted refl refl) (
        IsQuiet-trans j f (mark_in_flight-IsQuiet i conn_id true counted)
          (fields-IsQuiet j f marked _ refl refl))

  after_submission-IsQuiet :
      (i conn_id : ℕ) (r : Submitted HttpRequestTask) (s : HttpServer)
      → IsQuiet j f s (after_submission i conn_id r s)
  unfolding after_submission finish_in_flight_task
  after_submission-IsQuiet i conn_id (queued pool) s = fields-IsQuiet j f s _ refl refl
  after_submission-IsQuiet i conn_id (refused why) s =
      IsQuiet-trans j f (mark_in_flight-IsQuiet i conn_id false s)
        (fields-IsQuiet j f (mark_in_flight i conn_id false s) _ refl refl)

  enqueue_request_task-IsQuiet :
      (i fd conn_id : ℕ) (request : HttpRequest) (response : HttpResponse) (s : HttpServer)
      → IsQuiet j f s (enqueue_request_task i fd conn_id request response s)
  unfolding enqueue_request_task
  enqueue_request_task-IsQuiet i fd conn_id request response s =
      IsQuiet-trans j f (begin_task-IsQuiet i conn_id s)
        (after_submission-IsQuiet i conn_id _ (begin_task i conn_id s))

  consume_data-response :
      (n : ℕ) (c : HttpContext) → (consume_data n c).current_response ≡ c.current_response
  unfolding consume_data
  consume_data-response n c = elim (Bool-cases (leb (data_size c) n)) [
    | inl all ↦ elim (Bool-cases c.use_memory_pool) [
      | inl pooled ↦ rw (all, pooled) refl
      | inr plain ↦ rw (all, plain) refl
    ]
    | inr some_left ↦ rw some_left refl
  ]

  carry_out-IsQuiet :
      (date : Bytes) (fd i conn_id : ℕ) (c : HttpContext) (v : Verdict) (s : HttpServer)
      → lookup_context i fd s ≡ some c
      → IsQuiet j f s (carry_out date fd i conn_id c v s)
  unfolding carry_out
  carry_out-IsQuiet date fd i conn_id c (answered request response) s e =
      enqueue_request_task-IsQuiet i fd conn_id request response s
  carry_out-IsQuiet date fd i conn_id c wait_for_more s e = rearm_read-IsQuiet j f i conn_id s
  carry_out-IsQuiet date fd i conn_id c (consumed request n) s e =
      IsQuiet-trans j f
        (put_back-IsQuiet j f i fd c (consume_data n c) s e (consume_data-response n c))
        (enqueue_request_task-IsQuiet i fd conn_id request (new_response date)
          (set_context i fd (consume_data n c) s))
  carry_out-IsQuiet date fd i conn_id c overrun s e = close_connection-IsQuiet fd i s
  carry_out-IsQuiet date fd i conn_id c undecided s e = IsQuiet-refl j f s

  pub dispatch-IsQuiet :
      (date : Bytes) (fd i conn_id : ℕ) (s : HttpServer)
      → IsQuiet j f s (dispatch_buffered_requests date fd i conn_id s)
  unfolding dispatch_buffered_requests
  dispatch-IsQuiet date fd i conn_id s = elim (Option-cases (lookup_context i fd s)) [
    | inl gone ↦ rw (dispatch_buffered_requests, gone) (close_connection-IsQuiet fd i s)
    | inr (c, there) ↦
        rw (dispatch_buffered_requests, there)
          (IsQuiet-if j f (has_current_response c) (IsQuiet-refl j f s)
            (carry_out-IsQuiet date fd i conn_id c (verdict_of date c s) s there))
  ]
