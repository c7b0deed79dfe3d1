-- ===== src/Server/Output.antt =====
-- src/http/HttpServer.cpp: the sending of a response: writeAllDataFromOffset, writeCurrentResponse,
-- handleWrite and handleWake. What the kernel answers to the calls of send in one write is an
-- argument: the answers after which the loop goes on, and the one that ends it.
pub mod Sending
pub mod Quiet
pub mod Delivery
pub mod Stale
use http_framework.Prelude.{
  ℕ, suc, ◌+◌, ◌-◌, Bool, true, false, not, ◌&&◌, Option, none, some, List, [], ◌∷◌, ◌++◌, ◌==◌,
  leb, ltb, if◌then◌else◌, length, take, drop,
}
use Prim.Native.Nat.{min}
use http_framework.Prelude.Bytes.{Bytes, substr}
use http_framework.Context.{HttpContext, touch, reset_for_next_request, peek_data}
use http_framework.Server.{
  PendingResponse, HttpServer, Effect, sent, rearmed_write, emit, lookup_context,
}
use http_framework.Server.Ids.{make_conn_id, conn_id_fd, conn_id_generation}
use http_framework.Server.Registry.{
  set_context, set_pending, owns_connection, close_connection, rearm_read,
}
use http_framework.Server.Dispatch.{dispatch_buffered_requests, has_current_response}

-- An answer after which the loop goes on: some bytes were taken, one more than the number says and never
-- more than were offered, or EINTR.
pub data SendAnswer : Type 0 where
  took : ℕ → SendAnswer
  send_interrupted : SendAnswer

-- The answer that ends it: EAGAIN, another error, or 0 bytes with the errno of an earlier call.
pub data SendEnd : Type 0 where
  send_would_block : SendEnd
  send_failed : SendEnd
  took_nothing : (errno_is_eagain : Bool) → SendEnd

pub record SendScript : Type 0 where
  pub answers : List SendAnswer
  pub last : SendEnd

-- Nothing could be sent just now.
abbrev pub blocked : SendScript
blocked = record { answers = []; last = send_would_block }

-- The position after the loop, which is the size where all was sent, and what the kernel took: a call of
-- send gets the bytes from the position on, and takes them from there.
unfoldable pub send_loop : Bytes → ℕ → List SendAnswer → ℕ × Bytes
send_loop bytes total [] = (total, [])
send_loop bytes total (send_interrupted ∷ answers) = send_loop bytes total answers
send_loop bytes total (took n ∷ answers) =
    let count = min (suc n) (length bytes - total) in
    let (position, later) = send_loop bytes (total + count) answers in
    (position, substr bytes total count ++ later)

-- bytesWritten of writeAllDataFromOffset, whether all is sent, and what the kernel took.
unfoldable pub write_all_data_from_offset : Bytes → ℕ → List SendAnswer → ℕ × Bool × Bytes
write_all_data_from_offset bytes offset answers =
    if leb (length bytes) offset then (0, true, []) else (
      (send_loop bytes offset answers).0 - offset,
      leb (length bytes) (send_loop bytes offset answers).0,
      (send_loop bytes offset answers).1,
    )

abbrev pub is_eagain : SendEnd → Bool
is_eagain send_would_block = true
is_eagain send_failed = false
is_eagain (took_nothing errno_is_eagain) = errno_is_eagain

abbrev pub count_stale : HttpServer → HttpServer
count_stale s = record s { stale_callbacks_dropped = s.stale_callbacks_dropped + 1 }

abbrev pub with_response : PendingResponse → HttpContext → HttpContext
with_response item c = record c {
  current_response = some item.bytes;
  keep_alive = item.keep_alive;
  write_offset = 0;
}

module _ (date : Bytes) (now : ℕ) where
  -- All is sent: on with the next request, or the end of the connection.
  unfoldable pub response_done : ℕ → ℕ → HttpContext → HttpServer → HttpServer
  response_done fd i c s =
      if c.keep_alive
      then (let conn_id = make_conn_id fd c.connection_generation in
          let next = touch now (reset_for_next_request c) in
          let armed = rearm_read i conn_id (set_context i fd next s) in
          if ltb 0 (length (peek_data next))
          then dispatch_buffered_requests date fd i conn_id armed
          else armed)
      else close_connection fd i
          (set_context i fd (record c { current_response = none; write_offset = 0 }) s)

  unfoldable pub response_partial : ℕ → ℕ → HttpContext → ℕ → SendEnd → HttpServer → HttpServer
  response_partial fd i c written last s0 =
      let s = set_context i fd (record c { write_offset = c.write_offset + written }) s0 in
      if written == 0 && not (is_eagain last)
      then close_connection fd i s
      else emit (rearmed_write i (make_conn_id fd c.connection_generation)) s

  -- writeCurrentResponse on the context that its callers found.
  unfoldable pub write_current_response : ℕ → ℕ → HttpContext → SendScript → HttpServer → HttpServer
  write_current_response fd i c script s0 = elim c.current_response [
    | none ↦ s0
    | some bytes ↦
        let (written, all_sent, out) =
          write_all_data_from_offset bytes c.write_offset script.answers in
        let s = emit (sent fd out) s0 in
        if all_sent then response_done fd i c s else response_partial fd i c written script.last s
  ]

  unfoldable pub handle_write : ℕ → ℕ → SendScript → HttpServer → HttpServer
  handle_write fd i script s = elim (lookup_context i fd s) [
    | none ↦ close_connection fd i s
    | some c ↦
        if has_current_response c
        then write_current_response fd i c script s
        else rearm_read i (make_conn_id fd c.connection_generation) s
  ]

  unfoldable pub deliver_to :
      ℕ → ℕ → PendingResponse → SendScript → Option HttpContext → HttpServer → HttpServer
  deliver_to fd i item script none s = count_stale s
  deliver_to fd i item script (some c) s =
      if c.connection_generation == conn_id_generation item.conn_id
      then write_current_response fd i (with_response item c) script
          (set_context i fd (with_response item c) s)
      else count_stale s

  -- One item of handleWake.
  unfoldable pub deliver : ℕ → PendingResponse → SendScript → HttpServer → HttpServer
  deliver i item script s =
      let fd = conn_id_fd item.conn_id in
      if owns_connection fd i item.conn_id s
      then deliver_to fd i item script (lookup_context i fd s) s
      else count_stale s

  -- The items in their order, each with the answers to its calls of send.
  unfoldable pub deliver_all :
      ℕ → List PendingResponse → (PendingResponse → SendScript) → HttpServer → HttpServer
  deliver_all i [] scripts s = s
  deliver_all i (item ∷ items) scripts s =
      deliver_all i items scripts (deliver i item (scripts item) s)

  unfoldable pub handle_wake : ℕ → (PendingResponse → SendScript) → HttpServer → HttpServer
  handle_wake i scripts s =
      deliver_all i (s.reactors i).pending_responses scripts (set_pending i [] s)
