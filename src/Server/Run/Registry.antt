-- ===== src/Server/Run/Registry.antt =====
-- src/http/HttpServer.cpp: conns_ and the contexts agree in every run.
use http_framework.Prelude.{ℕ, ◌==◌, Bool-cases, inl, inr, ap, ◌≡◌, refl, Option, arith}
use http_framework.Prelude.Maps.{lookup, num_eq}
use http_framework.Response.{HttpResponse}
use http_framework.Router.Dispatch.{Table}
use http_framework.Server.{HttpServer, lookup_context}
use http_framework.ThreadPool.{advance}
use http_framework.Server.Registry.{register_event_fd}
use http_framework.Server.Invariant.{generation_in, generation_of, IsRegistered}
use http_framework.Server.Invariant.Conns.{open_count, IsUnique}
use http_framework.Server.Invariant.Same.{Same, Same-fields, IsRegistered-Same}
use http_framework.Server.Invariant.Accept.{IsFree}
use http_framework.Server.Invariant.Accept.Enlist.{accept_one-IsRegistered}
use http_framework.Server.Invariant.Accept.EventFds.{
  register_event_fd-IsRegistered, IsFree-register_event_fd,
}
use http_framework.Server.Invariant.Steps.{process-Same, leave_task-Same}
use http_framework.Server.Invariant.Handlers.{handle_event-IsRegistered}
use http_framework.Server.Run.{
  new_server, with_fds, enable_server_pool, pooled, setup_sub_reactor, Step, set_up, accept, event,
  worker, process, leave, Run, here, next,
}

new_server-IsRegistered : (n m : ℕ) → IsRegistered (new_server n m)
unfolding new_server lookup_context lookup open_count IsUnique
new_server-IsRegistered n m = record {
  held = λ i fd g e. cc e;
  kept = λ i fd g e. cc e;
  proper = λ fd b e c. cc e;
  counted = refl;
  unique = tt;
  narrow_counter = omega arith;
  some_reactor = ground arith;
}

with_fds-generation :
    (i wake_fd timer_fd : ℕ) (s : HttpServer) (j fd : ℕ)
    → generation_of j fd (with_fds i wake_fd timer_fd s) ≡ generation_of j fd s
unfolding with_fds lookup_context
with_fds-generation i wake_fd timer_fd s j fd = elim (Bool-cases (i == j)) [
  | inl here_it ↦
      let same_index : i ≡ j = ground arith in
      rw here_it (ap (λ k. generation_in (lookup fd (s.reactors k).contexts)) same_index)
  | inr past ↦ rw past refl
]

with_fds-Same : (i wake_fd timer_fd : ℕ) (s : HttpServer) → Same s (with_fds i wake_fd timer_fd s)
unfolding with_fds lookup_context
with_fds-Same i wake_fd timer_fd s = record {
  generations = λ j fd. with_fds-generation i wake_fd timer_fd s j fd;
  conns = refl;
  active = refl;
  size = refl;
  counter = refl;
}

enable_server_pool-Same :
    (block_size blocks : ℕ) (s : HttpServer) → Same s (enable_server_pool block_size blocks s)
unfolding enable_server_pool
enable_server_pool-Same block_size blocks s =
    Same-fields s (enable_server_pool block_size blocks s) refl refl refl refl refl

IsFree-with_fds :
    (fd i wake_fd timer_fd : ℕ) (s : HttpServer)
    → IsFree fd s
    → IsFree fd (with_fds i wake_fd timer_fd s)
unfolding with_fds
IsFree-with_fds fd i wake_fd timer_fd s free = free

setup-IsRegistered :
    (i epoll_fd wake_fd timer_fd : ℕ) (s : HttpServer)
    → IsFree epoll_fd s
    → IsFree wake_fd s
    → IsFree timer_fd s
    → IsRegistered s
    → IsRegistered (setup_sub_reactor i epoll_fd wake_fd timer_fd s)
unfolding setup_sub_reactor
setup-IsRegistered i epoll_fd wake_fd timer_fd s epoll_free wake_free timer_free ok =
    let s0 = with_fds i wake_fd timer_fd s in
    let s1 = register_event_fd epoll_fd i s0 in
    let s2 = register_event_fd wake_fd i s1 in
    let ok0 = IsRegistered-Same (with_fds-Same i wake_fd timer_fd s) ok in
    let ok1 =
      register_event_fd-IsRegistered epoll_fd i s0 ok0
        (IsFree-with_fds epoll_fd i wake_fd timer_fd s epoll_free) in
    let ok2 = register_event_fd-IsRegistered wake_fd i s1 ok1 (
      IsFree-register_event_fd epoll_fd i wake_fd s0
        (IsFree-with_fds wake_fd i wake_fd timer_fd s wake_free)) in
    register_event_fd-IsRegistered timer_fd i s2 ok2 (
      IsFree-register_event_fd wake_fd i timer_fd s1 (
        IsFree-register_event_fd epoll_fd i timer_fd s0
          (IsFree-with_fds timer_fd i wake_fd timer_fd s timer_free)))

module _ {E : Type 0} (router : Option (Table E HttpResponse)) where
  Step-IsRegistered : {s t : HttpServer} → Step router s t → IsRegistered s → IsRegistered t
  Step-IsRegistered (pooled s block_size blocks unused) ok =
      IsRegistered-Same (enable_server_pool-Same block_size blocks s) ok
  Step-IsRegistered (set_up s i epoll_fd wake_fd timer_fd epoll_free wake_free timer_free) ok =
      setup-IsRegistered i epoll_fd wake_fd timer_fd s epoll_free wake_free timer_free ok
  Step-IsRegistered (accept s date now fd add_ok free) ok =
      accept_one-IsRegistered date now fd add_ok s ok free
  Step-IsRegistered (event s date now i e scripts) ok =
      handle_event-IsRegistered date now i e scripts s ok
  Step-IsRegistered (worker s i) ok =
      IsRegistered-Same
        (Same-fields s (record s { thread_pool = advance i s.thread_pool }) refl refl refl refl
          refl)
        ok
  Step-IsRegistered (process s task) ok = IsRegistered-Same (process-Same router task s) ok
  Step-IsRegistered (leave s task) ok = IsRegistered-Same (leave_task-Same task s) ok

  -- In every run of a server, its reactors' contexts and conns_ agree: a sub reactor has a context on a
  -- descriptor, of a generation, exactly where conns_ binds the descriptor to that sub reactor and that
  -- generation as a connection; a binding as a connection names a sub reactor that exists and a
  -- generation that is not 0; and activeConnections is the number of these bindings. The kernel's part
  -- is that accept4 gives no descriptor that an open connection has.
  pub run-IsRegistered :
      (thread_pool_size sub_reactor_count : ℕ) (s : HttpServer)
      → Run router (new_server thread_pool_size sub_reactor_count) s
      → IsRegistered s
  run-IsRegistered n m s here = new_server-IsRegistered n m
  run-IsRegistered n m s (next {t} run step) = Step-IsRegistered step (run-IsRegistered n m t run)
