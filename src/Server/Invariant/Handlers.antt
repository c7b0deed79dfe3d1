-- ===== src/Server/Invariant/Handlers.antt =====
-- src/http/HttpServer.cpp: the handlers of the sub reactors keep the registry.
use http_framework.Prelude.{
  ℕ, ◌≡◌, refl, ap, ◌∙◌, Bool, true, false, ◌&&◌, ◌||◌, Option, none, some, List, [], ◌∷◌, ◌==◌,
  ltb, if◌then◌else◌, inl, inr, Bool-cases, Option-cases, is_empty,
}
use http_framework.Prelude.Bytes.{Bytes}
use http_framework.Request.State.{new_request}
use http_framework.Pool.{HttpMemoryPool}
use http_framework.Pool.Buffer.{PooledBuffer, is_valid}
use http_framework.Context.{
  HttpContext, touch, append_data, append_to_buffer, append_to_string, ensure_buffer, peek_data,
  mark_start,
}
use http_framework.Server.{PendingResponse, HttpServer, lookup_context}
use http_framework.Server.Ids.{conn_id_fd}
use http_framework.Server.Registry.{
  set_context, owns_connection, close_connection, close_connection_id, rearm_read,
}
use http_framework.Server.Dispatch.{has_current_response}
use http_framework.Server.Output.{SendScript, handle_write, handle_wake}
use http_framework.Server.Events.{
  RecvAnswer, received, recv_interrupted, RecvScript, read_all_data, bytes_read, peer_closed,
  refuse_bytes, after_read, handle_read, idle_conns, close_all, handle_timer, Event, is_fd,
  settle_hang_up, handle_connection_event, handle_event,
}
use http_framework.Server.Invariant.{generation_in, IsRegistered}
use http_framework.Server.Invariant.Same.{Same-fields, IsRegistered-Same}
use http_framework.Server.Invariant.Close.{close_connection_id-IsRegistered}
use http_framework.Server.Invariant.Steps.{
  enqueue_request_task-Same, rearm_read-Same, close_connection-IsRegistered, dispatch-IsRegistered,
}
use http_framework.Server.Invariant.Sending.{
  under_if, put-IsRegistered, handle_wake-IsRegistered, handle_write-IsRegistered,
}

module _ (date : Bytes) (now i : ℕ) where
  close_all-IsRegistered :
      (ids : List ℕ) (s : HttpServer) → IsRegistered s → IsRegistered (close_all ids s)
  unfolding close_all
  close_all-IsRegistered [] s ok = ok
  close_all-IsRegistered (conn_id ∷ ids) s ok =
      close_all-IsRegistered ids (close_connection_id conn_id s)
        (close_connection_id-IsRegistered conn_id s ok)

  handle_timer-IsRegistered :
      (s : HttpServer) → IsRegistered s → IsRegistered (handle_timer date now i s)
  unfolding handle_timer
  handle_timer-IsRegistered s ok =
      let ids = idle_conns date now s.idle_timeout_sec (s.reactors i).contexts in
      under_if (s.idle_timeout_sec == 0) s (close_all ids s) ok (close_all-IsRegistered ids s ok)

mark_start-generation :
    (now : ℕ) (b : Bool) (c : HttpContext)
    → (mark_start now b c).connection_generation ≡ c.connection_generation
mark_start-generation now true c = refl
mark_start-generation now false c = refl

append_to_buffer-generation :
    (src : Bytes) (b : PooledBuffer) (c : HttpContext)
    → (append_to_buffer src b c).connection_generation ≡ c.connection_generation
unfolding append_to_buffer
append_to_buffer-generation src b c = elim (Bool-cases (is_valid b)) [
  | inl ok ↦ rw ok refl
  | inr null ↦ rw null refl
]

either_generation :
    (b : Bool) (x y : HttpMemoryPool × HttpContext) (g : ℕ)
    → x.1.connection_generation ≡ g
    → y.1.connection_generation ≡ g
    → (if b then x else y).1.connection_generation ≡ g
either_generation true x y g h k = h
either_generation false x y g h k = k

append_data-generation :
    (now : ℕ) (src : Bytes) (pool : HttpMemoryPool) (c : HttpContext)
    → (append_data now src (pool, c)).1.connection_generation ≡ c.connection_generation
unfolding append_data append_to_string
append_data-generation now src pool c =
    let b = (ensure_buffer pool c.request_buffer).1 in
    let was_empty = is_empty (peek_data c) in
    let pooled : HttpMemoryPool × HttpContext = (
      (ensure_buffer pool c.request_buffer).0,
      mark_start now (was_empty && is_valid b) (append_to_buffer src b c),
    ) in
    let plain : HttpMemoryPool × HttpContext =
      (pool, mark_start now was_empty (append_to_string src c)) in
    either_generation (is_empty src) (pool, c) (if c.use_memory_pool then pooled else plain)
      c.connection_generation refl
      (either_generation c.use_memory_pool pooled plain c.connection_generation
        (mark_start-generation now (was_empty && is_valid b) (append_to_buffer src b c)
          ∙ append_to_buffer-generation src b c)
        (mark_start-generation now was_empty (append_to_string src c)))

read_all_data-generation :
    (now : ℕ) (answers : List RecvAnswer) (pool : HttpMemoryPool) (c : HttpContext)
    → (read_all_data now answers (pool, c)).1.connection_generation ≡ c.connection_generation
unfolding read_all_data
read_all_data-generation now [] pool c = refl
read_all_data-generation now (recv_interrupted ∷ answers) pool c =
    read_all_data-generation now answers pool c
read_all_data-generation now (received bytes ∷ answers) pool c =
    let (pool', c') = append_data now bytes (pool, c) in
    read_all_data-generation now answers pool' c' ∙ append_data-generation now bytes pool c

module _ (date : Bytes) (now i : ℕ) where
  after_read-IsRegistered :
      (fd conn_id : ℕ) (c : HttpContext) (s : HttpServer)
      → IsRegistered s
      → IsRegistered (after_read date now fd i conn_id c s)
  unfolding after_read
  after_read-IsRegistered fd conn_id c s ok = elim (Option-cases (refuse_bytes date c)) [
    | inl fine ↦ rw (after_read, fine) (dispatch-IsRegistered date fd i conn_id s ok)
    | inr (response, refusal) ↦
        rw (after_read, refusal)
          (IsRegistered-Same (enqueue_request_task-Same i fd conn_id new_request response s) ok)
  ]

  handle_read-IsRegistered :
      (fd conn_id : ℕ) (script : RecvScript) (s : HttpServer)
      → IsRegistered s
      → IsRegistered (handle_read date now fd i conn_id script s)
  unfolding handle_read
  handle_read-IsRegistered fd conn_id script s ok = elim (Option-cases (lookup_context i fd s)) [
    | inl e ↦ rw (handle_read, e) (close_connection-IsRegistered fd i s ok)
    | inr (c, e) ↦
        let (pool, read) = read_all_data now script.answers (s.owned_memory_pool, c) in
        let s' = record s { owned_memory_pool = pool } in
        let same = Same-fields s s' refl refl refl refl refl in
        let there = same.generations i fd ∙ ap generation_in e in
        let kept = read_all_data-generation now script.answers s.owned_memory_pool c in
        let ok' = IsRegistered-Same same ok in
        let quiet = set_context i fd read s' in
        let quiet_ok = put-IsRegistered i fd c read s' there kept ok' in
        let active = set_context i fd (touch now read) s' in
        let active_ok = put-IsRegistered i fd c (touch now read) s' there kept ok' in
        rw (handle_read, e)
          (under_if (bytes_read script.answers == 0)
            (if peer_closed script.last
              then close_connection fd i quiet
              else rearm_read i conn_id quiet)
            (after_read date now fd i conn_id (touch now read) active)
            (under_if (peer_closed script.last) (close_connection fd i quiet)
              (rearm_read i conn_id quiet) (close_connection-IsRegistered fd i quiet quiet_ok)
              (IsRegistered-Same (rearm_read-Same i conn_id quiet) quiet_ok))
            (after_read-IsRegistered fd conn_id (touch now read) active active_ok))
  ]

  settle_hang_up-IsRegistered :
      (fd : ℕ) (o : Option HttpContext) (s : HttpServer)
      → IsRegistered s
      → IsRegistered (settle_hang_up fd i o s)
  unfolding settle_hang_up
  settle_hang_up-IsRegistered fd none s ok = close_connection-IsRegistered fd i s ok
  settle_hang_up-IsRegistered fd (some c) s ok =
      under_if (ltb 0 c.in_flight || has_current_response c) s (close_connection fd i s) ok
        (close_connection-IsRegistered fd i s ok)

  connection_event-IsRegistered :
      (event : Event) (s : HttpServer)
      → IsRegistered s
      → IsRegistered (handle_connection_event date now i event s)
  unfolding handle_connection_event
  connection_event-IsRegistered event s ok =
      let fd = conn_id_fd event.conn_id in
      let after = handle_read date now fd i event.conn_id event.recv s in
      let read = (if event.readable then after else s) in
      let read_ok =
        under_if event.readable after s (handle_read-IsRegistered fd event.conn_id event.recv s ok)
          ok in
      under_if event.hung_up (settle_hang_up fd i (lookup_context i fd read) read)
        (if event.writable then handle_write date now fd i event.send read else read)
        (settle_hang_up-IsRegistered fd (lookup_context i fd read) read read_ok)
        (under_if event.writable (handle_write date now fd i event.send read) read
          (handle_write-IsRegistered date now i fd event.send read read_ok) read_ok)

  pub handle_event-IsRegistered :
      (event : Event) (scripts : PendingResponse → SendScript) (s : HttpServer)
      → IsRegistered s
      → IsRegistered (handle_event date now i event scripts s)
  unfolding handle_event
  handle_event-IsRegistered event scripts s ok =
      let fd = conn_id_fd event.conn_id in
      let owns = owns_connection fd i event.conn_id s in
      let normal = (if owns then handle_connection_event date now i event s else s) in
      let timed =
        (if is_fd (s.reactors i).timer_fd fd then handle_timer date now i s else normal) in
      let normal_ok =
        under_if owns (handle_connection_event date now i event s) s
          (connection_event-IsRegistered event s ok) ok in
      under_if (is_fd (s.reactors i).wake_fd fd) (handle_wake date now i scripts s) timed
        (handle_wake-IsRegistered date now i scripts s ok)
        (under_if (is_fd (s.reactors i).timer_fd fd) (handle_timer date now i s) normal
          (handle_timer-IsRegistered date now i s ok) normal_ok)
