-- ===== src/Server/Output/Delivery.antt =====
-- src/http/HttpServer.cpp: how far a response has come, and one write of it.
pub mod Runs
use http_framework.Prelude.{
  ℕ, ◌+◌, ◌≤◌, ◌<◌, ◌≡◌, refl, ap, sym, ◌∙◌, subst, Bool, true, false, not, ◌&&◌, ◌||◌, Option,
  none, some, List, [], ◌∷◌, ◌++◌, ◌==◌, ltb, if◌then◌else◌, arith, inl, inr, Bool-cases,
  Option-cases, length, drop, append_assoc, drop_all, append-nil,
}
use http_framework.Prelude.Bytes.{Bytes}
use http_framework.Prelude.Maps.{lookup, num_eq, lookup-insert}
use http_framework.Context.{HttpContext, touch, reset_for_next_request, peek_data}
use http_framework.Server.{PendingResponse, HttpServer, emit, sent, rearmed_write, lookup_context}
use http_framework.Server.Ids.{u32_mod, make_conn_id, conn_id_fd, conn_id_generation}
use http_framework.Server.Registry.{
  set_context, owns_connection, close_connection, close_connection_id, conn_id_of, rearm_read,
}
use http_framework.Server.Dispatch.{has_current_response, dispatch_buffered_requests}
use http_framework.Server.Output.{
  SendScript, SendEnd, is_eagain, write_all_data_from_offset, response_done, response_partial,
  write_current_response, handle_write, with_response, deliver_to, deliver,
}
use http_framework.Server.Output.Sending.{IsWrite, write_all_data_from_offset-IsWrite}
use http_framework.Server.Output.Stale.{owns_connection_lem}
use http_framework.Server.Output.Quiet.{
  sent_on, response_in, response_at, response_at-set_context, IsQuiet, IsQuiet-refl, IsQuiet-trans,
  IsQuiet-if, rearm_read-IsQuiet,
}
use http_framework.Server.Invariant.{generation_in, generation_of, IsRegistered}
use http_framework.Server.Invariant.Same.{emit-Same, IsRegistered-Same}
use http_framework.Server.Invariant.Once.{close_connection_id-closes}
use http_framework.Server.Invariant.Sending.{
  put-IsRegistered, write-IsRegistered, handle_write-IsRegistered,
}
use http_framework.Server.Output.Quiet.Steps.{close_connection-IsQuiet, dispatch-IsQuiet}

-- EPOLLOUT at some time, with the answers to the calls of send.
pub record Writable : Type 0 where
  pub date : Bytes
  pub now : ℕ
  pub script : SendScript

unfoldable pub handle_writes : ℕ → ℕ → List Writable → HttpServer → HttpServer
handle_writes fd i [] s = s
handle_writes fd i (w ∷ later) s =
    handle_writes fd i later (handle_write w.date w.now fd i w.script s)

-- A write that ends in another error than EAGAIN.
abbrev pub breaks : SendScript → Bool
breaks script = not (is_eagain script.last)

abbrev pub some_breaks : List Writable → Bool
some_breaks [] = false
some_breaks (w ∷ later) = breaks w.script || some_breaks later

-- How far the response `bytes` of the context `c` has come: `all` is what was sent on the descriptor
-- before, and then the response. While it is under way the context's write offset is the number of its
-- bytes that have gone out; it is over when all have, or after a write that broke, with a beginning of it
-- sent.
pub data IsDelivery (i fd : ℕ) (c : HttpContext) (bytes all : Bytes) (broke : Bool) (t : HttpServer)
    : Type 0 where
  under_way :
      (n : ℕ)
      → n ≤ length bytes
      → lookup_context i fd t ≡ some (record c { write_offset = n })
      → sent_on fd t.trace ++ drop n bytes ≡ all
      → IsDelivery i fd c bytes all broke t
  finished :
      response_at i fd t ≡ none → sent_on fd t.trace ≡ all → IsDelivery i fd c bytes all broke t
  broken :
      (n : ℕ)
      → broke ≡ true
      → response_at i fd t ≡ none
      → sent_on fd t.trace ++ drop n bytes ≡ all
      → IsDelivery i fd c bytes all broke t

no_response-set_context :
    (i fd : ℕ) (c : HttpContext) (s : HttpServer)
    → c.current_response ≡ none
    → response_at i fd (set_context i fd c s) ≡ none
no_response-set_context i fd c s quiet =
    response_at-set_context i fd c s i fd ∙ ground (arith, quiet)

pub lookup_context-set_context :
    (i fd : ℕ) (c : HttpContext) (s : HttpServer)
    → lookup_context i fd (set_context i fd c s) ≡ some c
unfolding lookup_context
lookup_context-set_context i fd c s =
    let same_index : (i == i) ≡ true = ground arith in
    let same_fd : (fd == fd) ≡ true = ground arith in
    rw (same_index, lookup-insert fd fd c (s.reactors i).contexts) (rw same_fd refl)

reset-response : (c : HttpContext) → (reset_for_next_request c).current_response ≡ none
unfolding reset_for_next_request
reset-response c = refl

module _ (fd i : ℕ) where
  -- With a context that is sending nothing, handleWrite does nothing there.
  handle_write-IsQuiet :
      (w : Writable) (s : HttpServer)
      → response_at i fd s ≡ none
      → IsQuiet i fd s (handle_write w.date w.now fd i w.script s)
  unfolding handle_write
  handle_write-IsQuiet w s idle = elim (Option-cases (lookup_context i fd s)) [
    | inl gone ↦ rw (handle_write, gone) (close_connection-IsQuiet i fd fd i s)
    | inr (c, there) ↦
        let no_response : c.current_response ≡ none = sym (ap response_in there) ∙ idle in
        let nothing : has_current_response c ≡ false = rw no_response refl in
        rw (handle_write, there) (rw nothing (rearm_read-IsQuiet i fd i _ s))
  ]

  pub handle_writes-IsQuiet :
      (writes : List Writable) (s : HttpServer)
      → response_at i fd s ≡ none
      → IsQuiet i fd s (handle_writes fd i writes s)
  unfolding handle_writes
  handle_writes-IsQuiet [] s idle = IsQuiet-refl i fd s
  handle_writes-IsQuiet (w ∷ later) s idle =
      let first = handle_write-IsQuiet w s idle in
      IsQuiet-trans i fd first
        (handle_writes-IsQuiet later (handle_write w.date w.now fd i w.script s) (first.empty idle))

  -- Nothing more was sent there, and no response is under way.
  abbrev IsDone : HttpServer → HttpServer → Type 0
  IsDone s t = (sent_on fd t.trace ≡ sent_on fd s.trace) × (response_at i fd t ≡ none)

  IsDone-if :
      (b : Bool) (s t u : HttpServer) → IsDone s t → IsDone s u → IsDone s (if b then t else u)
  IsDone-if true s t u p q = p
  IsDone-if false s t u p q = q

  quiet-IsDone :
      (c : HttpContext) (s t : HttpServer)
      → c.current_response ≡ none
      → IsQuiet i fd (set_context i fd c s) t
      → IsDone s t
  quiet-IsDone c s t quiet rest = (rest.unsent, rest.empty (no_response-set_context i fd c s quiet))

  response_done-IsDone :
      (date : Bytes) (now : ℕ) (c : HttpContext) (s : HttpServer)
      → IsDone s (response_done date now fd i c s)
  unfolding response_done
  response_done-IsDone date now c s =
      let next = touch now (reset_for_next_request c) in
      let conn_id = make_conn_id fd c.connection_generation in
      let put = set_context i fd next s in
      let armed = rearm_read i conn_id put in
      let dispatched = dispatch_buffered_requests date fd i conn_id armed in
      let more = ltb 0 (length (peek_data next)) in
      let done = record c { current_response = none; write_offset = 0 } in
      IsDone-if c.keep_alive s (if more then dispatched else armed)
        (close_connection fd i (set_context i fd done s))
        (quiet-IsDone next s (if more then dispatched else armed) (reset-response c) (
          IsQuiet-trans i fd (rearm_read-IsQuiet i fd i conn_id put) (
            IsQuiet-if i fd more (dispatch-IsQuiet i fd date fd i conn_id armed)
              (IsQuiet-refl i fd armed))))
        (quiet-IsDone done s (close_connection fd i (set_context i fd done s)) refl
          (close_connection-IsQuiet i fd fd i (set_context i fd done s)))

-- A response of which another part has gone out.
joined_out :
    (before out rest all bytes : Bytes)
    → before ++ rest ≡ all
    → out ++ bytes ≡ rest
    → (before ++ out) ++ bytes ≡ all
joined_out before out rest all bytes e joined =
    append_assoc before out bytes ∙ ap (λ xs. before ++ xs) joined ∙ e

sent_on-sent :
    (fd : ℕ) (out : Bytes) (s : HttpServer)
    → sent_on fd (emit (sent fd out) s).trace ≡ sent_on fd s.trace ++ out
unfolding sent_on
sent_on-sent fd out s = let same_fd : (fd == fd) ≡ true = ground arith in rw same_fd refl

no_generation-response :
    (i fd : ℕ) (s : HttpServer) → generation_of i fd s ≡ none → response_at i fd s ≡ none
no_generation-response i fd s gone = elim (Option-cases (lookup_context i fd s)) [
  | inl missing ↦ ap response_in missing
  | inr (c, there) ↦ absurd (cc (sym (ap generation_in there) ∙ gone))
]

close_connection-no_response :
    (fd i : ℕ) (c : HttpContext) (s : HttpServer)
    → fd < u32_mod
    → IsRegistered s
    → lookup_context i fd s ≡ some c
    → response_at i fd (close_connection fd i s) ≡ none
unfolding close_connection conn_id_of
close_connection-no_response fd i c s small ok there =
    let g = c.connection_generation in
    let named : conn_id_of i fd s ≡ make_conn_id fd g = rw (conn_id_of, there) refl in
    no_generation-response i fd (close_connection fd i s) (
      ap (λ id. generation_of i fd (close_connection_id id s)) named
      ∙ (close_connection_id-closes i fd g s ok small (ap generation_in there)).0)

both-right : (a b : Bool) → (a && b) ≡ true → b ≡ true
both-right true b e = e
both-right false b e = cc

module _ (date : Bytes) (now fd i : ℕ) (c : HttpContext) (script : SendScript)
    (s : HttpServer) where
  -- writeCurrentResponse with the response at hand.
  abbrev after_write : Bytes → HttpServer
  after_write bytes =
      let (written, all_sent, out) =
        write_all_data_from_offset bytes c.write_offset script.answers in
      let after = emit (sent fd out) s in
      if all_sent
      then response_done date now fd i c after
      else response_partial date now fd i c written script.last after

  write_current_response-full :
      {bytes : Bytes}
      → c.current_response ≡ some bytes
      → write_current_response date now fd i c script s ≡ after_write bytes
  unfolding write_current_response
  write_current_response-full full =
      ap (λ o. elim o [ none ↦ s | some bytes ↦ after_write bytes ]) full

module _ (date : Bytes) (now fd i : ℕ) (small : fd < u32_mod) (c : HttpContext)
    (bytes all : Bytes) where
  response_partial-IsDelivery :
      (written : ℕ) (script : SendScript) (s : HttpServer)
      → IsRegistered s
      → lookup_context i fd s ≡ some c
      → c.write_offset + written ≤ length bytes
      → sent_on fd s.trace ++ drop (c.write_offset + written) bytes ≡ all
      → IsDelivery i fd c bytes all
          (breaks script)
          (response_partial date now fd i c written script.last s)
  unfolding response_partial sent_on lookup_context
  response_partial-IsDelivery written script s ok there within joined =
      let n = c.write_offset + written in
      let later = record c { write_offset = n } in
      let t = set_context i fd later s in
      let put = lookup_context-set_context i fd later s in
      elim (Bool-cases (written == 0 && breaks script)) [
        | inl broke ↦
            let quiet = close_connection-IsQuiet i fd fd i t in
            let ok' = put-IsRegistered i fd c later s (ap generation_in there) refl ok in
            rw broke (
              broken n (both-right (written == 0) (breaks script) broke)
                (close_connection-no_response fd i later t small ok' put)
                (ap (λ xs. xs ++ drop n bytes) quiet.unsent ∙ joined))
        | inr on ↦ rw on (under_way n within put joined)
      ]

  pub write-IsDelivery :
      (script : SendScript) (s : HttpServer)
      → IsRegistered s
      → lookup_context i fd s ≡ some c
      → c.current_response ≡ some bytes
      → c.write_offset ≤ length bytes
      → sent_on fd s.trace ++ drop c.write_offset bytes ≡ all
      → IsDelivery i fd c bytes all
          (breaks script)
          (write_current_response date now fd i c script s)
  unfolding lookup_context
  write-IsDelivery script s ok there full h e =
      let (written, all_sent, out) =
        write_all_data_from_offset bytes c.write_offset script.answers in
      let w = write_all_data_from_offset-IsWrite bytes c.write_offset script.answers h in
      let n = c.write_offset + written in
      let after = emit (sent fd out) s in
      let so_far : sent_on fd after.trace ++ drop n bytes ≡ all =
        ap (λ xs. xs ++ drop n bytes) (sent_on-sent fd out s)
        ∙ joined_out (sent_on fd s.trace) out (drop c.write_offset bytes) all (drop n bytes) e
            w.joined in
      let ok' = IsRegistered-Same (emit-Same (sent fd out) s) ok in
      subst (IsDelivery i fd c bytes all (breaks script))
        (sym (write_current_response-full date now fd i c script s full))
        (elim (Bool-cases all_sent) [
          | inl whole ↦
              let end : drop n bytes ≡ [] = drop_all n bytes (omega (arith, w.whole whole)) in
              let (unsent, idle) = response_done-IsDone fd i date now c after in
              rw whole (
                finished idle (
                  unsent
                  ∙ sym (append-nil (sent_on fd after.trace))
                  ∙ ap (λ xs. sent_on fd after.trace ++ xs) (sym end)
                  ∙ so_far))
          | inr part ↦
              rw part (response_partial-IsDelivery written script after ok' there w.within so_far)
        ])
