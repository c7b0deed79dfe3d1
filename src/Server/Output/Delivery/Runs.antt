-- ===== src/Server/Output/Delivery/Runs.antt =====
-- src/http/HttpServer.cpp: a response goes out whole and in order from its delivery on, over as many
-- EPOLLOUT events as it takes: handleWake's part for it, and the calls of handleWrite that follow.
use http_framework.Prelude.{
  ℕ, ◌≤◌, ◌<◌, ◌≡◌, refl, ap, sym, ◌∙◌, subst, Bool, true, false, ◌||◌, some, List, [], ◌∷◌, ◌++◌,
  ◌==◌, if◌then◌else◌, arith, length, drop,
}
use http_framework.Prelude.Bytes.{Bytes}
use http_framework.Prelude.Maps.{num_eq}
use http_framework.Context.{HttpContext}
use http_framework.Server.{PendingResponse, HttpServer, lookup_context}
use http_framework.Server.Ids.{u32_mod, conn_id_fd, conn_id_generation}
use http_framework.Server.Registry.{set_context, owns_connection}
use http_framework.Server.Dispatch.{has_current_response}
use http_framework.Server.Output.{
  SendScript, write_current_response, handle_write, with_response, deliver_to, deliver,
}
use http_framework.Server.Output.Stale.{owns_connection_lem}
use http_framework.Server.Output.Quiet.{sent_on}
use http_framework.Server.Invariant.{generation_in, IsRegistered}
use http_framework.Server.Invariant.Sending.{
  put-IsRegistered, write-IsRegistered, handle_write-IsRegistered,
}
use http_framework.Server.Output.Delivery.{
  Writable, handle_writes, breaks, some_breaks, IsDelivery, under_way, finished, broken,
  lookup_context-set_context, handle_writes-IsQuiet, write-IsDelivery,
}

or-right : (a b : Bool) → b ≡ true → (a || b) ≡ true
or-right true b e = refl
or-right false b e = e

or-left : (a b : Bool) → a ≡ true → (a || b) ≡ true
or-left true b e = refl
or-left false b e = cc

handle_write-full :
    (w : Writable) (fd i : ℕ) (c : HttpContext) (s : HttpServer) {bytes : Bytes}
    → lookup_context i fd s ≡ some c
    → c.current_response ≡ some bytes
    → handle_write w.date w.now fd i w.script s
      ≡ write_current_response w.date w.now fd i c w.script s
unfolding handle_write
handle_write-full w fd i c s there full =
    let something : has_current_response c ≡ true = rw full refl in
    rw (handle_write, there) (rw something refl)

module _ (fd i : ℕ) (bytes all : Bytes) where
  -- A later write may break the response as well.
  IsDelivery-or :
      (b broke : Bool) (n : ℕ) (c : HttpContext) (t : HttpServer)
      → IsDelivery i fd (record c { write_offset = n }) bytes all broke t
      → IsDelivery i fd c bytes all (b || broke) t
  IsDelivery-or b broke n c t (under_way m h there e) = under_way m h there e
  IsDelivery-or b broke n c t (finished idle e) = finished idle e
  IsDelivery-or b broke n c t (broken m broke_at idle e) =
      broken m (or-right b broke broke_at) idle e

  go_on :
      (b : Bool) (later : List Writable) (c : HttpContext) (t : HttpServer)
      → ((n : ℕ)
          → n ≤ length bytes
          → lookup_context i fd t ≡ some (record c { write_offset = n })
          → sent_on fd t.trace ++ drop n bytes ≡ all
          → IsDelivery i fd
              (record c { write_offset = n })
              bytes
              all
              (some_breaks later)
              (handle_writes fd i later t))
      → IsDelivery i fd c bytes all b t
      → IsDelivery i fd c bytes all (b || some_breaks later) (handle_writes fd i later t)
  go_on b later c t more (under_way n h there e) =
      IsDelivery-or b (some_breaks later) n c (handle_writes fd i later t) (more n h there e)
  go_on b later c t more (finished idle e) =
      let rest = handle_writes-IsQuiet fd i later t idle in
      finished (rest.empty idle) (rest.unsent ∙ e)
  go_on b later c t more (broken n broke idle e) =
      let rest = handle_writes-IsQuiet fd i later t idle in
      broken n (or-left b (some_breaks later) broke) (rest.empty idle)
        (ap (λ xs. xs ++ drop n bytes) rest.unsent ∙ e)

  handle_writes-IsDelivery :
      (writes : List Writable) (c : HttpContext) (s : HttpServer)
      → fd < u32_mod
      → IsRegistered s
      → lookup_context i fd s ≡ some c
      → c.current_response ≡ some bytes
      → c.write_offset ≤ length bytes
      → sent_on fd s.trace ++ drop c.write_offset bytes ≡ all
      → IsDelivery i fd c bytes all (some_breaks writes) (handle_writes fd i writes s)
  unfolding handle_writes
  handle_writes-IsDelivery [] c s small ok there full h e = under_way c.write_offset h there e
  handle_writes-IsDelivery (w ∷ later) c s small ok there full h e =
      let t = handle_write w.date w.now fd i w.script s in
      let first : IsDelivery i fd c bytes all (breaks w.script) t =
        subst (IsDelivery i fd c bytes all (breaks w.script))
          (sym (handle_write-full w fd i c s there full))
          (write-IsDelivery w.date w.now fd i small c bytes all w.script s ok there full h e) in
      go_on (breaks w.script) later c t
        (λ n within held so_far.
          handle_writes-IsDelivery later (record c { write_offset = n }) t small
            (handle_write-IsRegistered w.date w.now i fd w.script s ok) held full within so_far)
        first

conn_id_fd-lt : (conn_id : ℕ) → conn_id_fd conn_id < u32_mod
unfolding conn_id_fd
conn_id_fd-lt conn_id = omega arith

if_true : (b : Bool) (s t : HttpServer) → b ≡ true → (if b then s else t) ≡ s
if_true true s t e = refl
if_true false s t e = cc

deliver-current :
    (date : Bytes) (now i : ℕ) (item : PendingResponse) (script : SendScript) (c : HttpContext)
    (s : HttpServer)
    → IsRegistered s
    → lookup_context i (conn_id_fd item.conn_id) s ≡ some c
    → c.connection_generation ≡ conn_id_generation item.conn_id
    → deliver date now i item script s
      ≡ write_current_response date now
          (conn_id_fd item.conn_id)
          i
          (with_response item c)
          script
          (set_context i (conn_id_fd item.conn_id) (with_response item c) s)
unfolding deliver deliver_to
deliver-current date now i item script c s ok there current =
    let fd = conn_id_fd item.conn_id in
    let owned : owns_connection fd i item.conn_id s ≡ true =
      (owns_connection_lem s fd i item.conn_id ok).1 (ap generation_in there ∙ ap some current) in
    let same : (c.connection_generation == conn_id_generation item.conn_id) ≡ true = ground arith in
    rw owned (
      ap (λ o. deliver_to date now fd i item script o s) there
      ∙ if_true (c.connection_generation == conn_id_generation item.conn_id) _ _ same)

-- A response is delivered to a connection that is there, and any number of EPOLLOUT events follow it
-- directly, each at some time and with any answers of the kernel to its calls of send. What went out on
-- the descriptor since is a beginning of the response, each byte once and in order: the whole of it where
-- the response is over and no write ended in an error other than EAGAIN, and else as many bytes as the
-- write offset that the context keeps while it is under way.
pub deliver-IsDelivery :
    (date : Bytes) (now i : ℕ) (item : PendingResponse) (script : SendScript)
    (writes : List Writable) (c : HttpContext) (s : HttpServer)
    → IsRegistered s
    → lookup_context i (conn_id_fd item.conn_id) s ≡ some c
    → c.connection_generation ≡ conn_id_generation item.conn_id
    → IsDelivery i
        (conn_id_fd item.conn_id)
        (with_response item c)
        item.bytes
        (sent_on (conn_id_fd item.conn_id) s.trace ++ item.bytes)
        (breaks script || some_breaks writes)
        (handle_writes (conn_id_fd item.conn_id) i writes (deliver date now i item script s))
deliver-IsDelivery date now i item script writes c s ok there current =
    let fd = conn_id_fd item.conn_id in
    let c' = with_response item c in
    let put = set_context i fd c' s in
    let all = sent_on fd s.trace ++ item.bytes in
    let live = ap generation_in there in
    let small = conn_id_fd-lt item.conn_id in
    let ok' = put-IsRegistered i fd c c' s live refl ok in
    let held = lookup_context-set_context i fd c' s in
    let t = write_current_response date now fd i c' script put in
    let first : IsDelivery i fd c' item.bytes all (breaks script) t =
      write-IsDelivery date now fd i small c' item.bytes all script put ok' held refl (omega arith)
        refl in
    let live' = ap generation_in held in
    subst
      (λ u.
        IsDelivery i fd c' item.bytes all (breaks script || some_breaks writes)
          (handle_writes fd i writes u))
      (sym (deliver-current date now i item script c s ok there current))
      (go_on fd i item.bytes all (breaks script) writes c' t
        (λ n within at so_far.
          handle_writes-IsDelivery fd i item.bytes all writes (record c' { write_offset = n }) t
            small (write-IsRegistered date now fd i c' script put live' ok') at refl within so_far)
        first)
