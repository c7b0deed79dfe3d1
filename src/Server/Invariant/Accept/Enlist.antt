-- ===== src/Server/Invariant/Accept/Enlist.antt =====
-- src/http/HttpServer.cpp: a round of handleAccept keeps the registry.
use native.Mathlib.Nat.{mod-lt}
use http_framework.Prelude.{
  ℕ, ◌+◌, ◌%◌, ◌<◌, ◌≡◌, refl, subst, ap, sym, ◌∙◌, Bool, true, false, ◌&&◌, Option, none, some,
  ◌==◌, ltb, leb, if◌then◌else◌, arith, inl, inr, Bool-cases,
}
use http_framework.Prelude.Maps.{insert, erase, num_eq}
use http_framework.Prelude.Bytes.{Bytes}
use http_framework.Context.{HttpContext, new_context, enable_memory_pool, pool_on}
use http_framework.Pool.{HttpMemoryPool}
use http_framework.Server.{HttpServer, lookup_context, closed}
use http_framework.Server.Ids.{
  u32_mod, make_conn_id, conn_id_generation, next_connection_generation,
  next_connection_generation_range, make_conn_id_generation,
}
use http_framework.Server.Registry.{
  bound, set_context, release_block, register_connection, unregister_event_fd, erase_context,
  drop_pending_responses, without_fd,
}
use http_framework.Server.Events.{accept_context, enlist, watch, take_back, admit, accept_one}
use http_framework.Server.Invariant.Conns.{erase-insert}
use http_framework.Server.Invariant.{generation_of, IsRegistered}
use http_framework.Server.Invariant.Same.{
  emit-Same, Same-fields, IsRegistered-Same, generation_of-set_context, generation_of-erase_context,
  generation_of-set_pending,
}
use http_framework.Server.Invariant.Accept.{
  IsFree, IsAdmitted, IsTakenBack, taken_back-IsRegistered, admitted-IsRegistered,
}

pub accept_context-generation :
    (date : Bytes) (now generation : ℕ) (s : HttpServer)
    → (accept_context date now generation s).1.connection_generation ≡ generation
unfolding accept_context enable_memory_pool pool_on new_context
accept_context-generation date now generation s = elim (Bool-cases s.use_memory_pool) [
  | inl pooled ↦ rw pooled refl
  | inr plain ↦ rw plain refl
]

-- The server once the connection has its record and its context.
record IsEnlisted (i fd g : ℕ) (s t : HttpServer) : Type 0 where
  generations :
      (j f : ℕ)
      → generation_of j f t ≡ (
          if i == j then (if fd == f then some g else generation_of i f s) else generation_of j f s)
  conns : t.conns ≡ insert fd (bound g i) s.conns
  active : t.active_connections ≡ s.active_connections
  size : t.sub_reactor_count ≡ s.sub_reactor_count
  counter : t.generation_counter ≡ (next_connection_generation s.generation_counter).1

abbrev drawn : HttpServer → ℕ
drawn s = (next_connection_generation s.generation_counter).0

abbrev enrolled : ℕ → ℕ → HttpServer → HttpServer
enrolled fd i s = (register_connection fd i (drop_pending_responses i fd s)).0

under_ifs :
    (i fd j f : ℕ) {v w x x' y y' : Option ℕ}
    → v ≡ w
    → x ≡ x'
    → y ≡ y'
    → (if i == j then (if fd == f then v else x) else y)
      ≡ (if i == j then (if fd == f then w else x') else y')
under_ifs i fd j f p q r = rw (p, q, r) refl

erased_ifs :
    (i fd j f : ℕ) (s t : HttpServer) (g : ℕ)
    → IsEnlisted i fd g s t
    → (if i == j then (if fd == f then none else generation_of i f t) else generation_of j f t)
      ≡ (if i == j then (if fd == f then none else generation_of i f s) else generation_of j f s)
erased_ifs i fd j f s t g new = rw (new.generations i f, new.generations j f) (ground arith)

enrolled-generation :
    (fd i : ℕ) (pool : HttpMemoryPool) (s : HttpServer) (j f : ℕ)
    → generation_of j f (record (enrolled fd i s) { owned_memory_pool = pool })
      ≡ generation_of j f s
unfolding register_connection drop_pending_responses lookup_context
enrolled-generation fd i pool s j f =
    generation_of-set_pending i (without_fd fd (s.reactors i).pending_responses) s j f

enrolled-IsEnlisted :
    (fd i : ℕ) (pool : HttpMemoryPool) (c : HttpContext) (s : HttpServer)
    → c.connection_generation ≡ drawn s
    → IsEnlisted i fd
        (drawn s)
        s
        (set_context i fd c (record (enrolled fd i s) { owned_memory_pool = pool }))
unfolding register_connection drop_pending_responses
enrolled-IsEnlisted fd i pool c s e = record {
  generations = λ j f.
      generation_of-set_context i fd c (record (enrolled fd i s) { owned_memory_pool = pool }) j f
      ∙ under_ifs i fd j f (ap some e) (enrolled-generation fd i pool s i f)
          (enrolled-generation fd i pool s j f);
  conns = refl;
  active = refl;
  size = refl;
  counter = refl;
}

enlist-IsEnlisted :
    (date : Bytes) (now fd i : ℕ) (s : HttpServer)
    → s.generation_counter < u32_mod
    → IsEnlisted i fd (drawn s) s (enlist date now fd i s).0
unfolding enlist register_connection drop_pending_responses
enlist-IsEnlisted date now fd i s small =
    enrolled-IsEnlisted fd i
      (release_block (lookup_context i fd (enrolled fd i s))
        (accept_context date now (conn_id_generation (make_conn_id fd (drawn s)))
          (enrolled fd i s)).0)
      (accept_context date now (conn_id_generation (make_conn_id fd (drawn s))) (enrolled fd i s)).1
      s
      (accept_context-generation date now (conn_id_generation (make_conn_id fd (drawn s)))
          (enrolled fd i s)
        ∙ make_conn_id_generation fd (drawn s)
            (next_connection_generation_range s.generation_counter small).1)

watch-IsAdmitted :
    (i fd g conn_id : ℕ) (s t : HttpServer)
    → s.generation_counter < u32_mod
    → IsEnlisted i fd g s t
    → IsAdmitted i fd g s (watch i conn_id t)
unfolding watch lookup_context
watch-IsAdmitted i fd g conn_id s t small new = record {
  generations = new.generations;
  conns = new.conns;
  active = ap (λ n. n + 1) new.active;
  size = new.size;
  narrow_counter =
      subst (λ n. n < u32_mod) (sym new.counter)
        (next_connection_generation_range s.generation_counter small).2;
}

take_back-IsTakenBack :
    (i fd g : ℕ) (s t : HttpServer)
    → s.generation_counter < u32_mod
    → IsEnlisted i fd g s t
    → IsTakenBack i fd s (take_back i fd t)
unfolding take_back unregister_event_fd erase_context lookup_context
take_back-IsTakenBack i fd g s t small new = record {
  generations = λ j f. generation_of-erase_context i fd t j f ∙ erased_ifs i fd j f s t g new;
  conns = ap (erase fd) new.conns ∙ erase-insert fd (bound g i) s.conns;
  active = new.active;
  size = new.size;
  narrow_counter =
      subst (λ n. n < u32_mod) (sym new.counter)
        (next_connection_generation_range s.generation_counter small).2;
}

-- A round of handleAccept keeps the registry, if the descriptor is free.
pub admit-IsRegistered :
    (date : Bytes) (now fd i : ℕ) (add_ok : Bool) (s : HttpServer)
    → IsRegistered s
    → IsFree fd s
    → i < s.sub_reactor_count
    → IsRegistered (admit date now fd i add_ok s)
unfolding admit
admit-IsRegistered date now fd i true s ok free exists =
    let (positive, narrow, _) =
      next_connection_generation_range s.generation_counter ok.narrow_counter in
    let (ready, conn_id) = enlist date now fd i s in
    admitted-IsRegistered i fd s (watch i conn_id ready) ok free (drawn s) positive narrow exists (
      watch-IsAdmitted i fd (drawn s) conn_id s ready ok.narrow_counter
        (enlist-IsEnlisted date now fd i s ok.narrow_counter))
admit-IsRegistered date now fd i false s ok free exists =
    let ready = (enlist date now fd i s).0 in
    taken_back-IsRegistered i fd s (take_back i fd ready) ok free (
      take_back-IsTakenBack i fd (drawn s) s ready ok.narrow_counter
        (enlist-IsEnlisted date now fd i s ok.narrow_counter))

pub accept_one-IsRegistered :
    (date : Bytes) (now fd : ℕ) (add_ok : Bool) (s : HttpServer)
    → IsRegistered s
    → IsFree fd s
    → IsRegistered (accept_one date now fd add_ok s)
unfolding accept_one
accept_one-IsRegistered date now fd add_ok s ok free =
    elim (Bool-cases (ltb 0 s.max_connections && leb s.max_connections s.active_connections)) [
      | inl full ↦ rw full (IsRegistered-Same (emit-Same (closed fd) s) ok)
      | inr room ↦ rw room (
          admit-IsRegistered date now fd (s.next_sub_reactor % s.sub_reactor_count) add_ok
            (record s { next_sub_reactor = s.next_sub_reactor + 1 })
            (IsRegistered-Same
              (Same-fields s (record s { next_sub_reactor = s.next_sub_reactor + 1 }) refl refl refl
                refl refl)
              ok)
            free (mod-lt s.next_sub_reactor ok.some_reactor))
    ]
