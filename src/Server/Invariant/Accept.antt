-- ===== src/Server/Invariant/Accept.antt =====
-- src/http/HttpServer.cpp: the registry once a connection is entered, or taken back.
pub mod Enlist
pub mod EventFds
use native.Mathlib.Nat.{mod-lt}
use http_framework.Prelude.{
  ℕ, ◌+◌, ◌%◌, ◌<◌, ◌≡◌, refl, subst, ap, sym, ◌∙◌, Bool, true, false, ◌&&◌, Option, none, some,
  ◌==◌, ltb, leb, if◌then◌else◌, arith, inl, inr, Bool-cases, Option-cases,
}
use http_framework.Prelude.Maps.{lookup, insert, erase, num_eq, lookup-insert, lookup-erase}
use http_framework.Prelude.Bytes.{Bytes}
use http_framework.Context.{HttpContext, new_context, enable_memory_pool, pool_on}
use http_framework.Pool.{HttpMemoryPool}
use http_framework.Server.{FdBinding, HttpServer, lookup_context, closed}
use http_framework.Server.Ids.{
  u32_mod, make_conn_id, conn_id_generation, next_connection_generation,
  next_connection_generation_range, make_conn_id_generation,
}
use http_framework.Server.Registry.{
  bound, binding_or_new, register_event_fd, set_context, release_block, register_connection,
  unregister_event_fd, erase_context, drop_pending_responses, without_fd,
}
use http_framework.Server.Events.{accept_context, enlist, watch, take_back, admit, accept_one}
use http_framework.Server.Invariant.Conns.{
  open_count, open_one, open_in, open_count-insert, open_count-erase, erase-insert, IsUnique,
  IsUnique-insert, IsUnique-erase,
}
use http_framework.Server.Invariant.{generation_of, IsProper, IsRegistered}
use http_framework.Server.Invariant.Same.{
  emit-Same, Same-fields, IsRegistered-Same, generation_of-set_context, generation_of-erase_context,
  generation_of-set_pending,
}

-- What the kernel promises of a descriptor that it hands out: no open connection has it.
abbrev pub IsFree : ℕ → HttpServer → Type 0
IsFree fd s = (b : FdBinding) → lookup fd s.conns ≡ some b → b.context ≡ false

-- What a server with a new connection on `fd` looks like, and one where it was taken back.
pub record IsAdmitted (i fd g : ℕ) (s t : HttpServer) : Type 0 where
  pub generations :
      (j f : ℕ)
      → generation_of j f t ≡ (
          if i == j then (if fd == f then some g else generation_of i f s) else generation_of j f s)
  pub conns : t.conns ≡ insert fd (bound g i) s.conns
  pub active : t.active_connections ≡ s.active_connections + 1
  pub size : t.sub_reactor_count ≡ s.sub_reactor_count
  pub narrow_counter : t.generation_counter < u32_mod

pub record IsTakenBack (i fd : ℕ) (s t : HttpServer) : Type 0 where
  pub generations :
      (j f : ℕ)
      → generation_of j f t
        ≡ (if i == j then (if fd == f then none else generation_of i f s) else generation_of j f s)
  pub conns : t.conns ≡ erase fd s.conns
  pub active : t.active_connections ≡ s.active_connections
  pub size : t.sub_reactor_count ≡ s.sub_reactor_count
  pub narrow_counter : t.generation_counter < u32_mod

pub IsProper-size :
    (s t : HttpServer) (b : FdBinding)
    → t.sub_reactor_count ≡ s.sub_reactor_count
    → IsProper s b
    → IsProper t b
IsProper-size s t b size p = record {
  reactor = p.reactor;
  shape = p.shape;
  exists = subst (λ n. p.reactor < n) (sym size) p.exists;
  positive = p.positive;
  narrow = p.narrow;
}

module _ (i fd : ℕ) (s t : HttpServer) (ok : IsRegistered s) (free : IsFree fd s) where
  pub none_there : (j : ℕ) → generation_of j fd s ≡ none
  none_there j = elim (Option-cases (generation_of j fd s)) [
    | inl e ↦ e
    | inr (h, e) ↦ cc (free (bound h j) (ok.held j fd h e))
  ]

  pub closed_there : open_in (lookup fd s.conns) ≡ 0
  closed_there = elim (Option-cases (lookup fd s.conns)) [
    | inl e ↦ rw e refl
    | inr (b, e) ↦ rw e (rw (free b e) refl)
  ]

  pub taken_back-IsRegistered : IsTakenBack i fd s t → IsRegistered t
  taken_back-IsRegistered back = record {
    held = λ j f h e.
        let e' = sym (back.generations j f) ∙ e in
        ap (lookup f) back.conns
        ∙ lookup-erase fd f s.conns
        ∙ ground (arith, ok.held j f h, none_there j);
    kept = λ j f h e.
        let e' = sym (lookup-erase fd f s.conns) ∙ ap (lookup f) (sym back.conns) ∙ e in
        back.generations j f ∙ ground (arith, ok.kept j f h, none_there j);
    proper = λ f b e c.
        let e' = sym (lookup-erase fd f s.conns) ∙ ap (lookup f) (sym back.conns) ∙ e in
        IsProper-size s t b back.size (ok.proper f b (ground arith) c);
    counted =
        back.active
        ∙ ok.counted
        ∙ omega
            (arith, open_count-erase fd s.conns ok.unique, closed_there, ap open_count back.conns);
    unique = subst IsUnique (sym back.conns) (IsUnique-erase fd s.conns ok.unique);
    narrow_counter = back.narrow_counter;
    some_reactor = subst (λ n. 0 < n) (sym back.size) ok.some_reactor;
  }

  new-IsProper :
      (g : ℕ)
      → 0 < g
      → g < u32_mod
      → i < s.sub_reactor_count
      → IsAdmitted i fd g s t
      → (f : ℕ) (b : FdBinding) → (if fd == f then some (bound g i) else lookup f s.conns) ≡ some b
      → b.context ≡ true
      → IsProper t b
  new-IsProper g positive narrow exists new f b e c = elim (Bool-cases (fd == f)) [
    | inl here ↦
        let same : bound g i ≡ b = ground arith in
        subst (IsProper t) same (record {
          reactor = i;
          shape = refl;
          exists = subst (λ n. i < n) (sym new.size) exists;
          positive = positive;
          narrow = narrow;
        })
    | inr past ↦ IsProper-size s t b new.size (ok.proper f b (ground arith) c)
  ]

  pub admitted-IsRegistered :
      (g : ℕ)
      → 0 < g
      → g < u32_mod
      → i < s.sub_reactor_count
      → IsAdmitted i fd g s t
      → IsRegistered t
  admitted-IsRegistered g positive narrow exists new = record {
    held = λ j f h e.
        let e' = sym (new.generations j f) ∙ e in
        ap (lookup f) new.conns
        ∙ lookup-insert fd f (bound g i) s.conns
        ∙ ground (arith, ok.held j f h, none_there j);
    kept = λ j f h e.
        let e' = sym (lookup-insert fd f (bound g i) s.conns) ∙ ap (lookup f) (sym new.conns) ∙ e in
        new.generations j f ∙ ground (arith, ok.kept j f h);
    proper = λ f b e c.
        let e' = sym (lookup-insert fd f (bound g i) s.conns) ∙ ap (lookup f) (sym new.conns) ∙ e in
        new-IsProper g positive narrow exists new f b e' c;
    counted = omega (
      arith,
      new.active,
      ok.counted,
      open_count-insert fd (bound g i) s.conns,
      closed_there,
      ap open_count new.conns,
    );
    unique = subst IsUnique (sym new.conns) (IsUnique-insert fd (bound g i) s.conns ok.unique);
    narrow_counter = new.narrow_counter;
    some_reactor = subst (λ n. 0 < n) (sym new.size) ok.some_reactor;
  }
