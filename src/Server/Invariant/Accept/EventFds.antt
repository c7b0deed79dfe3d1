-- ===== src/Server/Invariant/Accept/EventFds.antt =====
-- src/http/HttpServer.cpp: a descriptor of the server's own, entered by registerEventFd, keeps the registry.
use http_framework.Prelude.{ℕ, ◌<◌, ◌≡◌, refl, subst, ap, sym, ◌∙◌, false, some, arith}
use http_framework.Prelude.Maps.{lookup, insert, num_eq, lookup-insert}
use http_framework.Server.{FdBinding, HttpServer, lookup_context}
use http_framework.Server.Ids.{u32_mod}
use http_framework.Server.Registry.{binding_or_new, register_event_fd}
use http_framework.Server.Invariant.Conns.{
  open_count, open_one, open_count-insert, IsUnique, IsUnique-insert,
}
use http_framework.Server.Invariant.{generation_of, IsRegistered}
use http_framework.Server.Invariant.Accept.{IsFree, IsProper-size, none_there, closed_there}

quiet_one : (b : FdBinding) → b.context ≡ false → open_one b ≡ 0
quiet_one b e = rw e refl

-- A descriptor that is not a connection's is entered.
record IsNoted (fd : ℕ) (b : FdBinding) (s t : HttpServer) : Type 0 where
  generations : (j f : ℕ) → generation_of j f t ≡ generation_of j f s
  conns : t.conns ≡ insert fd b s.conns
  quiet : b.context ≡ false
  active : t.active_connections ≡ s.active_connections
  size : t.sub_reactor_count ≡ s.sub_reactor_count
  counter : t.generation_counter ≡ s.generation_counter

noted-IsRegistered :
    (fd : ℕ) (b : FdBinding) (s t : HttpServer)
    → IsRegistered s
    → IsFree fd s
    → IsNoted fd b s t
    → IsRegistered t
noted-IsRegistered fd b s t ok free new = record {
  held = λ j f h e.
      let e' = sym (new.generations j f) ∙ e in
      ap (lookup f) new.conns
      ∙ lookup-insert fd f b s.conns
      ∙ ground (arith, ok.held j f h, none_there j fd s s ok free j);
  kept = λ j f h e.
      let e' = sym (lookup-insert fd f b s.conns) ∙ ap (lookup f) (sym new.conns) ∙ e in
      new.generations j f ∙ ground (arith, ok.kept j f h, new.quiet);
  proper = λ f v e c.
      let e' = sym (lookup-insert fd f b s.conns) ∙ ap (lookup f) (sym new.conns) ∙ e in
      IsProper-size s t v new.size (ok.proper f v (ground (arith, new.quiet)) c);
  counted = omega (
    arith,
    new.active,
    ok.counted,
    open_count-insert fd b s.conns,
    closed_there 0 fd s s ok free,
    quiet_one b new.quiet,
    ap open_count new.conns,
  );
  unique = subst IsUnique (sym new.conns) (IsUnique-insert fd b s.conns ok.unique);
  narrow_counter = subst (λ n. n < u32_mod) (sym new.counter) ok.narrow_counter;
  some_reactor = subst (λ n. 0 < n) (sym new.size) ok.some_reactor;
}

pub register_event_fd-IsRegistered :
    (fd i : ℕ) (s : HttpServer)
    → IsRegistered s
    → IsFree fd s
    → IsRegistered (register_event_fd fd i s)
unfolding register_event_fd lookup_context
register_event_fd-IsRegistered fd i s ok free =
    noted-IsRegistered fd
      (record (binding_or_new (lookup fd s.conns)) { owner = some i; context = false }) s
      (register_event_fd fd i s) ok free
      (record {
        generations = λ j f. refl;
        conns = refl;
        quiet = refl;
        active = refl;
        size = refl;
        counter = refl;
      })

-- Entering one descriptor leaves the others free.
pub IsFree-register_event_fd :
    (fd i f : ℕ) (s : HttpServer) → IsFree f s → IsFree f (register_event_fd fd i s)
unfolding register_event_fd
IsFree-register_event_fd fd i f s free b e =
    let e' =
      sym (
        lookup-insert fd f
          (record (binding_or_new (lookup fd s.conns)) { owner = some i; context = false }) s.conns)
      ∙ e in
    ground (arith, free b)
