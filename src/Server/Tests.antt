-- ===== src/Server/Tests.antt =====
-- Runs of a small server: one sub reactor, whose descriptors are 3, 4 and 5, and one connection on 7.
use http_framework.Prelude.{
  ℕ, ◌≡◌, ◌≢◌, ◌↔◌, ◌<◌, ◌+◌, refl, ap, sym, ◌∙◌, true, false, Option, none, some, List, [], ◌∷◌,
  ◌++◌, arith, length,
}
use http_framework.Prelude.Bytes.{
  Bytes, codes, crlf, same, search_for, find, find_byte, starts_with,
}
use http_framework.Prelude.Maps.{lookup, insert, num_eq}
use http_framework.Response.{HttpResponse}
use http_framework.Router.Dispatch.{Table}
use http_framework.Context.{HttpContext, new_context}
use http_framework.Request.State.{HttpRequest, new_request}
use http_framework.Request.Parse.{rejected, accepted, parse}
use http_framework.Response.Status.{new_response}
use http_framework.Context.{peek_data}
use http_framework.Server.{HttpServer, PendingResponse, lookup_context, closed, removed}
use http_framework.Server.Tasks.{request_task}
use http_framework.Server.Dispatch.{verdict_of, closing_response, dispatch_buffered_requests}
use http_framework.Server.Dispatch.Decided.{IsDecided, verdict_of-IsDecided}
use http_framework.Server.Dispatch.HeldBytes.{held_bytes}
use http_framework.Server.Dispatch.Pipelining.{dispatch-first}
use http_framework.Server.Output.{
  SendScript, took, send_interrupted, send_would_block, blocked, count_stale, deliver,
  write_all_data_from_offset, with_response,
}
use http_framework.Server.Output.Sending.{took_count, write_all_data_from_offset-finishes}
use http_framework.Server.Output.Quiet.{sent_on}
use http_framework.Server.Output.Delivery.{Writable, handle_writes, IsDelivery}
use http_framework.Server.Output.Delivery.Runs.{deliver-IsDelivery}
use http_framework.Server.Output.Stale.{deliver-stale}
use http_framework.Server.Events.Timer.{IsFdMap, IsIdle, handle_timer_lem}
use http_framework.Server.Invariant.Once.{close_connection_id-closes}
use http_framework.Server.Ids.{
  make_conn_id, conn_id_fd, conn_id_generation, next_connection_generation, counter_after,
  next_connection_generation-distinct,
}
use http_framework.Request.Parse.{Parsed, out_of_fuel}
use http_framework.Request.Parse.Stability.{extended}
use http_framework.ThreadPool.{new_thread_pool}
use http_framework.Server.Registry.{
  set_context, register_connection, register_event_fd, drop_pending_responses, close_connection_id,
}
use http_framework.Server.Events.{handle_timer, accept_one, admit, enlist, watch, accept_context}
use http_framework.Server.Invariant.{generation_of, IsRegistered}
use http_framework.Server.Invariant.Accept.{IsFree}
use http_framework.Server.Run.{
  new_server, setup_sub_reactor, with_fds, set_up, accept, Run, here, next,
}
use http_framework.Server.Run.Registry.{run-IsRegistered}

abbrev no_router : Option (Table (Unit {0}) HttpResponse)
no_router = none

abbrev started : HttpServer
started = setup_sub_reactor 0 3 4 5 (new_server 1 1)

abbrev live : HttpServer
live = accept_one [] 0 7 true started

no_connections : (fd : ℕ) → IsFree fd (new_server 1 1)
unfolding new_server lookup
no_connections fd b e = cc e

seven-IsFree : IsFree 7 started
unfolding new_server setup_sub_reactor with_fds register_event_fd lookup insert
seven-IsFree b e = cc e

live-run : Run no_router (new_server 1 1) live
live-run =
    next
      (next here
        (set_up (new_server 1 1) 0 3 4 5 (no_connections 3) (no_connections 4) (no_connections 5)))
      (accept started [] 0 7 true seven-IsFree)

run-IsRegistered_example : IsRegistered live
run-IsRegistered_example = run-IsRegistered no_router 1 1 live live-run

live_generation : generation_of 0 7 live ≡ some 1
unfolding lookup_context lookup accept_one setup_sub_reactor register_event_fd with_fds new_server
    admit watch enlist insert register_connection drop_pending_responses accept_context
    conn_id_generation make_conn_id next_connection_generation new_context
live_generation = refl

abbrev live_context : HttpContext
live_context = record (new_context 0) { connection_generation = 1; max_request_bytes = 1048576 }

live_lookup : lookup_context 0 7 live ≡ some live_context
unfolding lookup_context lookup accept_one setup_sub_reactor register_event_fd with_fds new_server
    admit watch enlist insert register_connection drop_pending_responses accept_context
    conn_id_generation make_conn_id next_connection_generation new_context
live_lookup = refl

next_connection_generation-distinct_example :
    (0 < (next_connection_generation (counter_after 0 1)).0)
    × ((next_connection_generation (counter_after 0 1)).0
        ≢ (next_connection_generation (counter_after 1 1)).0)
next_connection_generation-distinct_example =
    next_connection_generation-distinct 1 0 1 (omega arith) (omega arith) (omega arith)

close_connection_id-closes_example :
    (generation_of 0 7 (close_connection_id (make_conn_id 7 1) live) ≡ none)
    × (live.active_connections
        ≡ (close_connection_id (make_conn_id 7 1) live).active_connections + 1)
    × ((close_connection_id (make_conn_id 7 1) live).trace ≡ closed 7 ∷ removed 0 7 ∷ live.trace)
    × (close_connection_id (make_conn_id 7 1) (close_connection_id (make_conn_id 7 1) live)
        ≡ close_connection_id (make_conn_id 7 1) live)
close_connection_id-closes_example =
    close_connection_id-closes 0 7 1 live (run-IsRegistered no_router 1 1 live live-run)
      (omega arith) live_generation

-- Generation 2 on the same descriptor.
abbrev stale_id : ℕ
stale_id = 8589934599

abbrev late : PendingResponse
late = record { conn_id = stale_id; bytes = codes "late"; keep_alive = true }

late_gone : generation_of 0 (conn_id_fd late.conn_id) live ≢ some (conn_id_generation late.conn_id)
unfolding conn_id_fd conn_id_generation
late_gone e = cc (sym live_generation ∙ e)

deliver-stale_example : deliver [] 0 0 late blocked live ≡ count_stale live
deliver-stale_example =
    deliver-stale [] 0 0 late blocked live (run-IsRegistered no_router 1 1 live live-run) late_gone

live_map : IsFdMap (live.reactors 0).contexts
unfolding lookup accept_one setup_sub_reactor register_event_fd with_fds new_server admit watch
    enlist insert register_connection drop_pending_responses
live_map = (omega arith, refl, tt)

live_timeout : 0 < live.idle_timeout_sec
unfolding accept_one setup_sub_reactor register_event_fd with_fds new_server admit watch enlist
    insert register_connection drop_pending_responses
live_timeout = omega arith

-- A minute later.
handle_timer_lem_example :
    ((generation_of 0 7 (handle_timer [] 60000000000 0 live) ≡ none)
      ↔ IsIdle 60000000000 live.idle_timeout_sec live_context)
    × ((generation_of 0 7 (handle_timer [] 60000000000 0 live)
          ≡ some live_context.connection_generation)
        ↔ ¬ (IsIdle 60000000000 live.idle_timeout_sec live_context))
handle_timer_lem_example =
    handle_timer_lem [] 60000000000 0 7 live_context live
      (run-IsRegistered no_router 1 1 live live-run) live_timeout live_map (omega arith) live_lookup

write_all_data_from_offset-finishes_example :
    ((write_all_data_from_offset (codes "abc") 1 (took 0 ∷ send_interrupted ∷ took 0 ∷ [])).1
      ≡ true)
    × (1 + (write_all_data_from_offset (codes "abc") 1 (took 0 ∷ send_interrupted ∷ took 0 ∷ [])).0
        ≡ length (codes "abc"))
unfolding took_count
write_all_data_from_offset-finishes_example =
    write_all_data_from_offset-finishes (codes "abc") 1 (took 0 ∷ send_interrupted ∷ took 0 ∷ [])
      (omega arith) (omega arith)

abbrev answer_item : PendingResponse
answer_item = record { conn_id = 4294967303; bytes = codes "abc"; keep_alive = true }

abbrev one_byte : SendScript
one_byte = record { answers = took 0 ∷ send_interrupted ∷ []; last = send_would_block }

abbrev later_writes : List Writable
later_writes =
    record { date = []; now = 1; script = blocked }
    ∷ record {
      date = [];
      now = 2;
      script = record { answers = took 9 ∷ []; last = send_would_block };
    }
    ∷ []

answer_fd : conn_id_fd answer_item.conn_id ≡ 7
unfolding conn_id_fd
answer_fd = refl

answer_generation : live_context.connection_generation ≡ conn_id_generation answer_item.conn_id
unfolding conn_id_generation
answer_generation = refl

-- One byte at the delivery, none at the first EPOLLOUT, the rest at the second.
deliver-IsDelivery_example :
    IsDelivery 0
      (conn_id_fd answer_item.conn_id)
      (with_response answer_item live_context)
      (codes "abc")
      (sent_on (conn_id_fd answer_item.conn_id) live.trace ++ codes "abc")
      false
      (handle_writes
        (conn_id_fd answer_item.conn_id)
        0
        later_writes
        (deliver [] 0 0 answer_item one_byte live))
deliver-IsDelivery_example =
    deliver-IsDelivery [] 0 0 answer_item one_byte later_writes live_context live
      (run-IsRegistered no_router 1 1 live live-run)
      (ap (λ fd. lookup_context 0 fd live) answer_fd ∙ live_lookup) answer_generation

verdict_of-IsDecided_example : IsDecided (verdict_of [] live_context (new_server 1 1))
unfolding new_server new_context peek_data
verdict_of-IsDecided_example = verdict_of-IsDecided [] live_context (new_server 1 1) (omega arith)

abbrev bad_request : HttpRequest
bad_request = record new_request { malformed = true }

abbrev bad_response : HttpResponse
bad_response = closing_response [] 400 [] (codes "{\"error\":\"Malformed request\"}")

run : Unit {0}
unfolding parse new_request same search_for find find_byte starts_with lookup insert new_server
    lookup_context
run = tt

get_bytes : Bytes
get_bytes = codes "GET / HTTP/1.1" ++ crlf ++ crlf

abbrev request_of : Parsed → HttpRequest
request_of (accepted q) = q
request_of (rejected q) = q
request_of out_of_fuel = new_request

abbrev get_request : HttpRequest
get_request = request_of (parse new_request get_bytes)

-- A whole request and the first byte of the next one.
abbrev pipelined : HttpContext
pipelined = record (new_context 0) { connection_generation = 1; buffer = get_bytes ++ codes "G" }

abbrev pipelining : HttpServer
pipelining = set_context 0 7 pipelined (new_server 1 1)

dispatch-first_example :
    (held_bytes 0 7 (dispatch_buffered_requests [] 7 0 4294967303 pipelining) ≡ some (codes "G"))
    × ((dispatch_buffered_requests [] 7 0 4294967303 pipelining).thread_pool.tasks
        ≡ request_task 0 7 4294967303
            (extended get_request (get_bytes ++ codes "G") (codes "G"))
            (new_response [])
          ∷ [])
unfolding run get_bytes peek_data new_context new_thread_pool
dispatch-first_example =
    dispatch-first [] 0 7 4294967303 pipelined pipelining get_request get_bytes (codes "G")
      (omega arith) refl refl refl refl refl refl (omega arith) refl
