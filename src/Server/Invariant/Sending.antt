-- ===== src/Server/Invariant/Sending.antt =====
-- src/http/HttpServer.cpp: what sends responses keeps the registry.
use http_framework.Prelude.{
  ℕ, ◌+◌, ◌≡◌, refl, ap, sym, ◌∙◌, Bool, true, false, ◌&&◌, not, Option, none, some, List, [], ◌∷◌,
  ◌==◌, ltb, if◌then◌else◌, inl, inr, Option-cases, length,
}
use http_framework.Prelude.Bytes.{Bytes}
use http_framework.Context.{HttpContext, touch, reset_for_next_request, peek_data}
use http_framework.Server.{PendingResponse, HttpServer, lookup_context, emit, sent, rearmed_write}
use http_framework.Server.Ids.{make_conn_id, conn_id_fd, conn_id_generation}
use http_framework.Server.Registry.{
  set_context, set_pending, owns_connection, close_connection, rearm_read,
}
use http_framework.Server.Dispatch.{has_current_response, dispatch_buffered_requests}
use http_framework.Server.Output.{
  SendScript, SendEnd, is_eagain, write_all_data_from_offset, response_done, response_partial,
  write_current_response, handle_write, count_stale, with_response, deliver_to, deliver,
  deliver_all, handle_wake,
}
use http_framework.Server.Invariant.{generation_in, generation_of, IsRegistered}
use http_framework.Server.Invariant.Same.{
  Same-fields, emit-Same, set_context-Same, set_pending-Same, IsRegistered-Same,
}
use http_framework.Server.Invariant.Steps.{
  put_back-Same, rearm_read-Same, close_connection-IsRegistered, dispatch-IsRegistered,
}

pub under_if :
    (b : Bool) (s t : HttpServer)
    → IsRegistered s
    → IsRegistered t
    → IsRegistered (if b then s else t)
under_if true s t h k = h
under_if false s t h k = k

reset-generation :
    (c : HttpContext) → (reset_for_next_request c).connection_generation ≡ c.connection_generation
unfolding reset_for_next_request
reset-generation c = refl

-- A context in place of one of the same generation.
pub put-IsRegistered :
    (i fd : ℕ) (c c' : HttpContext) (s : HttpServer)
    → generation_of i fd s ≡ some c.connection_generation
    → c'.connection_generation ≡ c.connection_generation
    → IsRegistered s
    → IsRegistered (set_context i fd c' s)
put-IsRegistered i fd c c' s e same ok =
    IsRegistered-Same (set_context-Same i fd c' s (e ∙ ap some (sym same))) ok

module _ (date : Bytes) (now fd i : ℕ) (c : HttpContext) where
  response_done-IsRegistered :
      (s : HttpServer)
      → generation_of i fd s ≡ some c.connection_generation
      → IsRegistered s
      → IsRegistered (response_done date now fd i c s)
  unfolding response_done
  response_done-IsRegistered s e ok =
      let next = touch now (reset_for_next_request c) in
      let done = record c { current_response = none; write_offset = 0 } in
      let conn_id = make_conn_id fd c.connection_generation in
      let armed = rearm_read i conn_id (set_context i fd next s) in
      let ready : IsRegistered armed =
        IsRegistered-Same (rearm_read-Same i conn_id (set_context i fd next s))
          (put-IsRegistered i fd c next s e (reset-generation c) ok) in
      under_if c.keep_alive
        (if ltb 0 (length (peek_data next))
          then dispatch_buffered_requests date fd i conn_id armed
          else armed)
        (close_connection fd i (set_context i fd done s))
        (under_if (ltb 0 (length (peek_data next)))
          (dispatch_buffered_requests date fd i conn_id armed) armed
          (dispatch-IsRegistered date fd i conn_id armed ready) ready)
        (close_connection-IsRegistered fd i (set_context i fd done s)
          (put-IsRegistered i fd c done s e refl ok))

  response_partial-IsRegistered :
      (written : ℕ) (last : SendEnd) (s : HttpServer)
      → generation_of i fd s ≡ some c.connection_generation
      → IsRegistered s
      → IsRegistered (response_partial date now fd i c written last s)
  unfolding response_partial
  response_partial-IsRegistered written last s e ok =
      let later = record c { write_offset = c.write_offset + written } in
      let t = set_context i fd later s in
      let kept = put-IsRegistered i fd c later s e refl ok in
      let effect = rearmed_write i (make_conn_id fd c.connection_generation) in
      under_if (written == 0 && not (is_eagain last)) (close_connection fd i t) (emit effect t)
        (close_connection-IsRegistered fd i t kept) (IsRegistered-Same (emit-Same effect t) kept)

  pub write-IsRegistered :
      (script : SendScript) (s : HttpServer)
      → generation_of i fd s ≡ some c.connection_generation
      → IsRegistered s
      → IsRegistered (write_current_response date now fd i c script s)
  unfolding write_current_response
  write-IsRegistered script s e ok = elim (Option-cases c.current_response) [
    | inl none_there ↦ rw (write_current_response, none_there) ok
    | inr (bytes, there) ↦
        let (written, all_sent, out) =
          write_all_data_from_offset bytes c.write_offset script.answers in
        let effect = sent fd out in
        let same = emit-Same effect s in
        let e' = same.generations i fd ∙ e in
        let ok' = IsRegistered-Same same ok in
        rw (write_current_response, there)
          (under_if all_sent (response_done date now fd i c (emit effect s))
            (response_partial date now fd i c written script.last (emit effect s))
            (response_done-IsRegistered (emit effect s) e' ok')
            (response_partial-IsRegistered written script.last (emit effect s) e' ok'))
  ]

module _ (date : Bytes) (now i : ℕ) where
  deliver_to-IsRegistered :
      (fd : ℕ) (item : PendingResponse) (script : SendScript) (o : Option HttpContext)
      (s : HttpServer)
      → lookup_context i fd s ≡ o
      → IsRegistered s
      → IsRegistered (deliver_to date now fd i item script o s)
  unfolding deliver_to
  deliver_to-IsRegistered fd item script none s e ok =
      IsRegistered-Same (Same-fields s (count_stale s) refl refl refl refl refl) ok
  deliver_to-IsRegistered fd item script (some c) s e ok =
      let c' = with_response item c in
      let t = set_context i fd c' s in
      let same = put_back-Same i fd c c' s e refl in
      under_if (c.connection_generation == conn_id_generation item.conn_id)
        (write_current_response date now fd i c' script t) (count_stale s)
        (write-IsRegistered date now fd i c' script t (same.generations i fd ∙ ap generation_in e)
          (IsRegistered-Same same ok))
        (IsRegistered-Same (Same-fields s (count_stale s) refl refl refl refl refl) ok)

  deliver-IsRegistered :
      (item : PendingResponse) (script : SendScript) (s : HttpServer)
      → IsRegistered s
      → IsRegistered (deliver date now i item script s)
  unfolding deliver
  deliver-IsRegistered item script s ok =
      let fd = conn_id_fd item.conn_id in
      let o = lookup_context i fd s in
      under_if (owns_connection fd i item.conn_id s) (deliver_to date now fd i item script o s)
        (count_stale s) (deliver_to-IsRegistered fd item script o s refl ok)
        (IsRegistered-Same (Same-fields s (count_stale s) refl refl refl refl refl) ok)

  deliver_all-IsRegistered :
      (items : List PendingResponse) (scripts : PendingResponse → SendScript) (s : HttpServer)
      → IsRegistered s
      → IsRegistered (deliver_all date now i items scripts s)
  unfolding deliver_all
  deliver_all-IsRegistered [] scripts s ok = ok
  deliver_all-IsRegistered (item ∷ items) scripts s ok =
      deliver_all-IsRegistered items scripts (deliver date now i item (scripts item) s)
        (deliver-IsRegistered item (scripts item) s ok)

  pub handle_wake-IsRegistered :
      (scripts : PendingResponse → SendScript) (s : HttpServer)
      → IsRegistered s
      → IsRegistered (handle_wake date now i scripts s)
  unfolding handle_wake
  handle_wake-IsRegistered scripts s ok =
      deliver_all-IsRegistered (s.reactors i).pending_responses scripts (set_pending i [] s)
        (IsRegistered-Same (set_pending-Same i [] s) ok)

  pub handle_write-IsRegistered :
      (fd : ℕ) (script : SendScript) (s : HttpServer)
      → IsRegistered s
      → IsRegistered (handle_write date now fd i script s)
  unfolding handle_write
  handle_write-IsRegistered fd script s ok = elim (Option-cases (lookup_context i fd s)) [
    | inl e ↦ rw (handle_write, e) (close_connection-IsRegistered fd i s ok)
    | inr (c, e) ↦
        let conn_id = make_conn_id fd c.connection_generation in
        rw (handle_write, e)
          (under_if (has_current_response c) (write_current_response date now fd i c script s)
            (rearm_read i conn_id s)
            (write-IsRegistered date now fd i c script s (ap generation_in e) ok)
            (IsRegistered-Same (rearm_read-Same i conn_id s) ok))
  ]
