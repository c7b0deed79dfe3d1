-- ===== src/Server/Invariant/Same.antt =====
-- src/http/HttpServer.cpp: the functions that leave alone which connections there are.
use http_framework.Prelude.{
  ℕ, ◌<◌, ◌≡◌, refl, subst, ap, sym, ◌∙◌, Bool, true, false, Option, none, some, List, ◌==◌,
  if◌then◌else◌, arith, inl, inr, Bool-cases,
}
use http_framework.Prelude.Maps.{lookup, num_eq, lookup-insert, lookup-erase}
use http_framework.Context.{HttpContext}
use http_framework.Server.{Effect, emit, FdBinding, PendingResponse, HttpServer, lookup_context}
use http_framework.Server.Registry.{set_context, set_pending, erase_context}
use http_framework.Server.Ids.{u32_mod}
use http_framework.Server.Invariant.Conns.{open_count, IsUnique}
use http_framework.Server.Invariant.{generation_in, generation_of, IsProper, IsRegistered}

pub record Same (s t : HttpServer) : Type 0 where
  pub generations : (i fd : ℕ) → generation_of i fd t ≡ generation_of i fd s
  pub conns : t.conns ≡ s.conns
  pub active : t.active_connections ≡ s.active_connections
  pub size : t.sub_reactor_count ≡ s.sub_reactor_count
  pub counter : t.generation_counter ≡ s.generation_counter

pub Same-refl : (s : HttpServer) → Same s s
Same-refl s = record {
  generations = λ i fd. refl;
  conns = refl;
  active = refl;
  size = refl;
  counter = refl;
}

pub Same-trans : {s t u : HttpServer} → Same s t → Same t u → Same s u
Same-trans p q = record {
  generations = λ i fd. q.generations i fd ∙ p.generations i fd;
  conns = q.conns ∙ p.conns;
  active = q.active ∙ p.active;
  size = q.size ∙ p.size;
  counter = q.counter ∙ p.counter;
}

IsProper-Same : {s t : HttpServer} {b : FdBinding} → Same s t → IsProper s b → IsProper t b
IsProper-Same same p = record {
  reactor = p.reactor;
  shape = p.shape;
  exists = subst (λ n. p.reactor < n) (sym same.size) p.exists;
  positive = p.positive;
  narrow = p.narrow;
}

pub IsRegistered-Same : {s t : HttpServer} → Same s t → IsRegistered s → IsRegistered t
IsRegistered-Same same ok = record {
  held = λ i fd g e. ap (lookup fd) same.conns ∙ ok.held i fd g (sym (same.generations i fd) ∙ e);
  kept = λ i fd g e. same.generations i fd ∙ ok.kept i fd g (ap (lookup fd) (sym same.conns) ∙ e);
  proper = λ fd b e c. IsProper-Same same (ok.proper fd b (ap (lookup fd) (sym same.conns) ∙ e) c);
  counted = same.active ∙ ok.counted ∙ ap open_count (sym same.conns);
  unique = subst IsUnique (sym same.conns) ok.unique;
  narrow_counter = subst (λ n. n < u32_mod) (sym same.counter) ok.narrow_counter;
  some_reactor = subst (λ n. 0 < n) (sym same.size) ok.some_reactor;
}

generation_in-if :
    (b : Bool) (x y : Option HttpContext)
    → generation_in (if b then x else y) ≡ (if b then generation_in x else generation_in y)
generation_in-if true x y = refl
generation_in-if false x y = refl

-- The context on one descriptor is replaced.
pub generation_of-set_context :
    (i fd : ℕ) (c : HttpContext) (s : HttpServer) (j f : ℕ)
    → generation_of j f (set_context i fd c s) ≡ (
        if i == j
        then (if fd == f then some c.connection_generation else generation_of i f s)
        else generation_of j f s)
unfolding lookup_context
generation_of-set_context i fd c s j f = elim (Bool-cases (i == j)) [
  | inl here ↦
      rw (here, lookup-insert fd f c (s.reactors i).contexts)
        (generation_in-if (fd == f) (some c) (lookup f (s.reactors i).contexts))
  | inr past ↦ rw past refl
]

-- The context on one descriptor is erased.
pub generation_of-erase_context :
    (i fd : ℕ) (s : HttpServer) (j f : ℕ)
    → generation_of j f (erase_context i fd s)
      ≡ (if i == j then (if fd == f then none else generation_of i f s) else generation_of j f s)
unfolding lookup_context erase_context
generation_of-erase_context i fd s j f = elim (Bool-cases (i == j)) [
  | inl here ↦
      rw (here, lookup-erase fd f (s.reactors i).contexts)
        (generation_in-if (fd == f) none (lookup f (s.reactors i).contexts))
  | inr past ↦ rw past refl
]

as_before :
    (G : ℕ → ℕ → Option ℕ) (i fd j f : ℕ) (v : Option ℕ)
    → G i fd ≡ v
    → (if i == j then (if fd == f then v else G i f) else G j f) ≡ G j f
as_before G i fd j f v e = ground arith

pub set_context-Same :
    (i fd : ℕ) (c : HttpContext) (s : HttpServer)
    → generation_of i fd s ≡ some c.connection_generation
    → Same s (set_context i fd c s)
set_context-Same i fd c s e = record {
  generations = λ j f.
      generation_of-set_context i fd c s j f
      ∙ as_before (λ a b. generation_of a b s) i fd j f (some c.connection_generation) e;
  conns = refl;
  active = refl;
  size = refl;
  counter = refl;
}

pub generation_of-set_pending :
    (i : ℕ) (pending : List PendingResponse) (s : HttpServer) (j f : ℕ)
    → generation_of j f (set_pending i pending s) ≡ generation_of j f s
unfolding lookup_context
generation_of-set_pending i pending s j f = elim (Bool-cases (i == j)) [
  | inl here ↦
      let same_index : i ≡ j = ground arith in
      rw here (ap (λ k. generation_in (lookup f (s.reactors k).contexts)) same_index)
  | inr past ↦ rw past refl
]

pub set_pending-Same :
    (i : ℕ) (pending : List PendingResponse) (s : HttpServer) → Same s (set_pending i pending s)
set_pending-Same i pending s = record {
  generations = generation_of-set_pending i pending s;
  conns = refl;
  active = refl;
  size = refl;
  counter = refl;
}

-- Other members may change as they like.
pub Same-fields :
    (s t : HttpServer)
    → t.reactors ≡ s.reactors
    → t.conns ≡ s.conns
    → t.active_connections ≡ s.active_connections
    → t.sub_reactor_count ≡ s.sub_reactor_count
    → t.generation_counter ≡ s.generation_counter
    → Same s t
unfolding lookup_context
Same-fields s t e conns active size counter = record {
  generations = λ i fd. ap (λ r. generation_in (lookup fd (r i).contexts)) e;
  conns = conns;
  active = active;
  size = size;
  counter = counter;
}

pub emit-Same : (e : Effect) (s : HttpServer) → Same s (emit e s)
emit-Same e s = Same-fields s (emit e s) refl refl refl refl refl
