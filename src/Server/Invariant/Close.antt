-- ===== src/Server/Invariant/Close.antt =====
-- src/http/HttpServer.cpp: closing a connection keeps the registry, touches no other connection, and is
-- done once.
use http_framework.Prelude.{
  ℕ, ◌+◌, ◌<◌, ◌≡◌, refl, subst, ap, sym, ◌∙◌, true, Option, none, some, ◌==◌, if◌then◌else◌, arith,
  inl, inr, Bool-cases, lt→ltb,
}
use http_framework.Prelude.Maps.{lookup, insert, num_eq, lookup-insert}
use http_framework.Server.{FdBinding, HttpServer, lookup_context, emit, removed, count_down}
use http_framework.Server.Ids.{u32_mod, conn_id_fd, conn_id_generation}
use http_framework.Server.Registry.{
  bound, unbound, bind, erase_context, tear_down, drop_pending_responses, without_fd,
  tear_down_owned, close_bound, close_found, close_connection_id,
}
use http_framework.Server.Invariant.Conns.{open_count, open_count-insert, IsUnique, IsUnique-insert}
use http_framework.Server.Invariant.{generation_of, IsProper, IsRegistered}
use http_framework.Server.Invariant.Same.{
  Same-fields, IsRegistered-Same, generation_of-erase_context, generation_of-set_pending,
}

one_less :
    (active before after : ℕ) → active ≡ before → after + 1 ≡ before + 0 → count_down active ≡ after
one_less active before after e h = ground arith

one_more :
    (active before after : ℕ)
    → active ≡ before
    → after + 1 ≡ before + 0
    → active ≡ count_down active + 1
one_more active before after e h = ground arith

-- The server after a connection of the i-th reactor on `fd` was closed.
abbrev pub after_close : ℕ → ℕ → FdBinding → HttpServer → HttpServer
after_close i fd b s = tear_down i fd (bind fd (unbound b) s)

pub generation_of-after_close :
    (i fd : ℕ) (b : FdBinding) (s : HttpServer) (j f : ℕ)
    → generation_of j f (after_close i fd b s)
      ≡ (if i == j then (if fd == f then none else generation_of i f s) else generation_of j f s)
unfolding tear_down drop_pending_responses lookup_context
generation_of-after_close i fd b s j f =
    generation_of-set_pending i
      (without_fd fd
        ((erase_context i fd (emit (removed i fd) (bind fd (unbound b) s))).reactors
          i).pending_responses)
      (erase_context i fd (emit (removed i fd) (bind fd (unbound b) s))) j f
    ∙ generation_of-erase_context i fd (emit (removed i fd) (bind fd (unbound b) s)) j f

pub conns-after_close :
    (i fd : ℕ) (b : FdBinding) (s : HttpServer) (f : ℕ)
    → lookup f (after_close i fd b s).conns
      ≡ (if fd == f then some (unbound b) else lookup f s.conns)
unfolding tear_down drop_pending_responses erase_context
conns-after_close i fd b s f = lookup-insert fd f (unbound b) s.conns

conns-after_close_all :
    (i fd : ℕ) (b : FdBinding) (s : HttpServer)
    → (after_close i fd b s).conns ≡ insert fd (unbound b) s.conns
unfolding tear_down drop_pending_responses erase_context
conns-after_close_all i fd b s = refl

counter-after_close :
    (i fd : ℕ) (b : FdBinding) (s : HttpServer)
    → (after_close i fd b s).generation_counter ≡ s.generation_counter
unfolding tear_down drop_pending_responses erase_context
counter-after_close i fd b s = refl

size-after_close :
    (i fd : ℕ) (b : FdBinding) (s : HttpServer)
    → (after_close i fd b s).sub_reactor_count ≡ s.sub_reactor_count
unfolding tear_down drop_pending_responses erase_context
size-after_close i fd b s = refl

active-after_close :
    (i fd : ℕ) (b : FdBinding) (s : HttpServer)
    → (after_close i fd b s).active_connections ≡ count_down s.active_connections
unfolding tear_down drop_pending_responses erase_context
active-after_close i fd b s = refl

IsProper-after_close :
    (i fd : ℕ) (b : FdBinding) (s : HttpServer) (v : FdBinding)
    → IsProper s v
    → IsProper (after_close i fd b s) v
unfolding tear_down drop_pending_responses erase_context
IsProper-after_close i fd b s v p = record {
  reactor = p.reactor;
  shape = p.shape;
  exists = p.exists;
  positive = p.positive;
  narrow = p.narrow;
}

module _ (i fd g : ℕ) (s : HttpServer) (ok : IsRegistered s)
    (here : lookup fd s.conns ≡ some (bound g i)) where
  held_after :
      (j f h : ℕ)
      → (if i == j then (if fd == f then none else generation_of i f s) else generation_of j f s)
        ≡ some h
      → (if fd == f then some (unbound (bound g i)) else lookup f s.conns) ≡ some (bound h j)
  held_after j f h e = ground (arith, ok.held j f h)

  kept_after :
      (j f h : ℕ)
      → (if fd == f then some (unbound (bound g i)) else lookup f s.conns) ≡ some (bound h j)
      → (if i == j then (if fd == f then none else generation_of i f s) else generation_of j f s)
        ≡ some h
  kept_after j f h e = ground (arith, ok.kept j f h)

  proper_after :
      (f : ℕ) (b : FdBinding)
      → (if fd == f then some (unbound (bound g i)) else lookup f s.conns) ≡ some b
      → b.context ≡ true
      → lookup f s.conns ≡ some b
  proper_after f b e c = ground arith

  pub active_falls : s.active_connections ≡ (after_close i fd (bound g i) s).active_connections + 1
  active_falls = rw (active-after_close i fd (bound g i) s) (
      one_more s.active_connections (open_count s.conns)
        (open_count (insert fd (unbound (bound g i)) s.conns)) ok.counted
        (rw here at (open_count-insert fd (unbound (bound g i)) s.conns)))

  after_close-IsRegistered : IsRegistered (after_close i fd (bound g i) s)
  after_close-IsRegistered = record {
    held = λ j f h e.
        conns-after_close i fd (bound g i) s f
        ∙ held_after j f h (sym (generation_of-after_close i fd (bound g i) s j f) ∙ e);
    kept = λ j f h e.
        generation_of-after_close i fd (bound g i) s j f
        ∙ kept_after j f h (sym (conns-after_close i fd (bound g i) s f) ∙ e);
    proper = λ f b e c.
        IsProper-after_close i fd (bound g i) s b
          (ok.proper f b (proper_after f b (sym (conns-after_close i fd (bound g i) s f) ∙ e) c) c);
    counted = count_after;
    unique =
        subst IsUnique (sym (conns-after_close_all i fd (bound g i) s))
          (IsUnique-insert fd (unbound (bound g i)) s.conns ok.unique);
    narrow_counter =
        subst (λ n. n < u32_mod) (sym (counter-after_close i fd (bound g i) s)) ok.narrow_counter;
    some_reactor = subst (λ n. 0 < n) (sym (size-after_close i fd (bound g i) s)) ok.some_reactor;
  }
    where
      count_after :
          (after_close i fd (bound g i) s).active_connections
          ≡ open_count (after_close i fd (bound g i) s).conns
      count_after =
          active-after_close i fd (bound g i) s
          ∙ one_less s.active_connections (open_count s.conns)
              (open_count (insert fd (unbound (bound g i)) s.conns)) ok.counted
              (rw here at (open_count-insert fd (unbound (bound g i)) s.conns))
          ∙ ap open_count (sym (conns-after_close_all i fd (bound g i) s))

close_owned-IsRegistered :
    (fd g i : ℕ) (s : HttpServer)
    → IsRegistered s
    → lookup fd s.conns ≡ some (bound g i)
    → i < s.sub_reactor_count
    → IsRegistered (tear_down_owned (some i) fd (bind fd (unbound (bound g i)) s))
close_owned-IsRegistered fd g i s ok e exists =
    rw (lt→ltb i s.sub_reactor_count exists) (after_close-IsRegistered i fd g s ok e)

close_bound-IsRegistered :
    (fd : ℕ) (b : FdBinding) (generation : ℕ) (s : HttpServer)
    → IsRegistered s
    → lookup fd s.conns ≡ some b
    → IsRegistered (close_bound b fd generation s)
unfolding close_bound
close_bound-IsRegistered fd b generation s ok e = elim (Bool-cases b.context) [
  | inr off ↦ rw off ok
  | inl on ↦ elim (Bool-cases (b.generation == generation)) [
    | inr other ↦
        rw (on, other)
          (IsRegistered-Same
            (Same-fields s (record s { stale_callbacks_dropped = s.stale_callbacks_dropped + 1 })
              refl refl refl refl refl)
            ok)
    | inl same ↦
        let p = ok.proper fd b e on in
        rw (on, same)
          (subst (λ v. IsRegistered (tear_down_owned v.owner fd (bind fd (unbound v) s)))
            (sym p.shape)
            (close_owned-IsRegistered fd b.generation p.reactor s ok (e ∙ ap some p.shape)
              p.exists))
  ]
]

-- Closing by any identifier keeps the registry.
pub close_connection_id-IsRegistered :
    (conn_id : ℕ) (s : HttpServer) → IsRegistered s → IsRegistered (close_connection_id conn_id s)
unfolding close_connection_id close_found
close_connection_id-IsRegistered conn_id s ok = elim (Bool-cases (conn_id == 0)) [
  | inl none_there ↦ rw none_there ok
  | inr some_there ↦ rw some_there (found (lookup (conn_id_fd conn_id) s.conns) refl)
]
  where
    found :
        (o : Option FdBinding)
        → lookup (conn_id_fd conn_id) s.conns ≡ o
        → IsRegistered (close_found o (conn_id_fd conn_id) (conn_id_generation conn_id) s)
    found none e = ok
    found (some b) e =
        close_bound-IsRegistered (conn_id_fd conn_id) b (conn_id_generation conn_id) s ok e
