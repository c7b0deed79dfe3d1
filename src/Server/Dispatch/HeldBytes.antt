-- ===== src/Server/Dispatch/HeldBytes.antt =====
-- src/http/HttpServer.cpp: enqueueRequestTask adds a task and leaves the held bytes alone.
use http_framework.Prelude.{
  ℕ, ◌+◌, ◌≡◌, refl, ap, sym, ◌∙◌, Bool, true, false, Option, none, some, [], ◌∷◌, ◌++◌, ◌==◌, ltb,
  if◌then◌else◌, arith, inl, inr, Bool-cases,
}
use http_framework.Prelude.Bytes.{Bytes}
use http_framework.Prelude.Maps.{lookup, num_eq, lookup-insert}
use http_framework.Request.State.{HttpRequest}
use http_framework.Response.{HttpResponse}
use http_framework.Context.{HttpContext, peek_data, enter_in_flight, leave_in_flight}
use http_framework.ThreadPool.{
  ThreadPool, push_task, stopped, Submitted, queued, refused, enqueue_detached,
}
use http_framework.Server.{HttpRequestTask, HttpServer, lookup_context}
use http_framework.Server.Ids.{conn_id_fd, conn_id_generation}
use http_framework.Server.Registry.{set_context}
use http_framework.Server.Tasks.{
  mark_context, mark_in_flight, request_task, begin_task, after_submission, enqueue_request_task,
  finish_in_flight_task,
}

abbrev peeked : Option HttpContext → Option Bytes
peeked none = none
peeked (some c) = some (peek_data c)

-- The bytes that the i-th reactor holds for a descriptor.
abbrev pub held_bytes : ℕ → ℕ → HttpServer → Option Bytes
held_bytes i fd s = peeked (lookup_context i fd s)

kept_if :
    (fd f : ℕ) (held : ℕ → Option Bytes) (v : Option Bytes)
    → held fd ≡ v
    → (if fd == f then v else held f) ≡ held f
kept_if fd f held v e = ground arith

peeked-if :
    (b : Bool) (x y : Option HttpContext)
    → peeked (if b then x else y) ≡ (if b then peeked x else peeked y)
peeked-if true x y = refl
peeked-if false x y = refl

pub held_bytes-set_context :
    (i fd : ℕ) (c : HttpContext) (s : HttpServer) (f : ℕ)
    → held_bytes i f (set_context i fd c s)
      ≡ (if fd == f then some (peek_data c) else held_bytes i f s)
unfolding lookup_context
held_bytes-set_context i fd c s f =
    let same : (i == i) ≡ true = ground arith in
    rw (same, lookup-insert fd f c (s.reactors i).contexts)
      (peeked-if (fd == f) (some c) (lookup f (s.reactors i).contexts))

peek_data-marked :
    (enter : Bool) (c : HttpContext)
    → peek_data (if enter then enter_in_flight c else leave_in_flight c) ≡ peek_data c
unfolding peek_data
peek_data-marked true c = refl
peek_data-marked false c = refl

held_bytes-mark_context :
    (i fd generation : ℕ) (enter : Bool) (o : Option HttpContext) (s : HttpServer) (f : ℕ)
    → lookup_context i fd s ≡ o
    → held_bytes i f (mark_context i fd generation enter o s) ≡ held_bytes i f s
unfolding mark_context
held_bytes-mark_context i fd generation enter none s f e = refl
held_bytes-mark_context i fd generation enter (some c) s f e =
    elim (Bool-cases (c.connection_generation == generation)) [
      | inr other ↦ rw other refl
      | inl same ↦
          let marked = (if enter then enter_in_flight c else leave_in_flight c) in
          let there = ap peeked e in
          rw same (
            held_bytes-set_context i fd marked s f
            ∙ kept_if fd f (λ k. held_bytes i k s) (some (peek_data marked))
                (there ∙ ap some (sym (peek_data-marked enter c))))
    ]

-- Counting requests in flight leaves all held bytes alone.
held_bytes-mark_in_flight :
    (i conn_id : ℕ) (enter : Bool) (s : HttpServer) (f : ℕ)
    → held_bytes i f (mark_in_flight i conn_id enter s) ≡ held_bytes i f s
unfolding mark_in_flight
held_bytes-mark_in_flight i conn_id enter s f = elim (Bool-cases (ltb i s.sub_reactor_count)) [
  | inr out ↦ rw out refl
  | inl within ↦ rw within (
      held_bytes-mark_context i (conn_id_fd conn_id) (conn_id_generation conn_id) enter
        (lookup_context i (conn_id_fd conn_id) s) s f refl)
]

held_bytes-begin_task :
    (i conn_id : ℕ) (s : HttpServer) (f : ℕ)
    → held_bytes i f (begin_task i conn_id s) ≡ held_bytes i f s
unfolding begin_task lookup_context
held_bytes-begin_task i conn_id s f =
    held_bytes-mark_in_flight i conn_id true
      (record s { total_requests = s.total_requests + 1; queued_tasks = s.queued_tasks + 1 }) f

held_bytes-after_submission :
    (i conn_id : ℕ) (r : Submitted HttpRequestTask) (s : HttpServer) (f : ℕ)
    → held_bytes i f (after_submission i conn_id r s) ≡ held_bytes i f s
unfolding after_submission finish_in_flight_task lookup_context
held_bytes-after_submission i conn_id (queued pool) s f = refl
held_bytes-after_submission i conn_id (refused why) s f =
    held_bytes-mark_in_flight i conn_id false s f

mark_context-pool :
    (i fd generation : ℕ) (enter : Bool) (o : Option HttpContext) (s : HttpServer)
    → (mark_context i fd generation enter o s).thread_pool ≡ s.thread_pool
unfolding mark_context
mark_context-pool i fd generation enter none s = refl
mark_context-pool i fd generation enter (some c) s =
    elim (Bool-cases (c.connection_generation == generation)) [
      | inr other ↦ rw other refl
      | inl same ↦ rw same refl
    ]

mark_in_flight-pool :
    (i conn_id : ℕ) (enter : Bool) (s : HttpServer)
    → (mark_in_flight i conn_id enter s).thread_pool ≡ s.thread_pool
unfolding mark_in_flight
mark_in_flight-pool i conn_id enter s = elim (Bool-cases (ltb i s.sub_reactor_count)) [
  | inr out ↦ rw out refl
  | inl within ↦ rw within (
      mark_context-pool i (conn_id_fd conn_id) (conn_id_generation conn_id) enter
        (lookup_context i (conn_id_fd conn_id) s) s)
]

begin_task-pool :
    (i conn_id : ℕ) (s : HttpServer) → (begin_task i conn_id s).thread_pool ≡ s.thread_pool
unfolding begin_task
begin_task-pool i conn_id s =
    mark_in_flight-pool i conn_id true
      (record s { total_requests = s.total_requests + 1; queued_tasks = s.queued_tasks + 1 })

enqueue-running :
    (task : HttpRequestTask) (p : ThreadPool HttpRequestTask)
    → p.running ≡ true
    → enqueue_detached (some task) p ≡ queued (push_task task p)
unfolding enqueue_detached
enqueue-running task p on = ap (λ b. if b then queued (push_task task p) else refused stopped) on

-- A task that the pool takes is the last of its queue.
pub enqueue_request_task-tasks :
    (i fd conn_id : ℕ) (request : HttpRequest) (response : HttpResponse) (s : HttpServer)
    → s.thread_pool.running ≡ true
    → (enqueue_request_task i fd conn_id request response s).thread_pool.tasks
      ≡ s.thread_pool.tasks ++ request_task i fd conn_id request response ∷ []
unfolding enqueue_request_task after_submission
enqueue_request_task-tasks i fd conn_id request response s on =
    let task = request_task i fd conn_id request response in
    let begun = begin_task i conn_id s in
    ap (λ r. (after_submission i conn_id r begun).thread_pool.tasks)
      (ap (enqueue_detached (some task)) (begin_task-pool i conn_id s)
        ∙ enqueue-running task s.thread_pool on)

pub held_bytes-enqueue :
    (i fd conn_id : ℕ) (request : HttpRequest) (response : HttpResponse) (s : HttpServer) (f : ℕ)
    → held_bytes i f (enqueue_request_task i fd conn_id request response s) ≡ held_bytes i f s
unfolding enqueue_request_task
held_bytes-enqueue i fd conn_id request response s f =
    held_bytes-after_submission i conn_id _ (begin_task i conn_id s) f
    ∙ held_bytes-begin_task i conn_id s f
