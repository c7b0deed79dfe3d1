-- ===== src/Server/Output/Quiet.antt =====
-- src/http/HttpServer.cpp: what was sent on a descriptor, the response that is under way there, and the
-- changes that send nothing and start none.
pub mod Steps
use http_framework.Prelude.{
  ℕ, ◌+◌, ◌≡◌, refl, ap, sym, ◌∙◌, Bool, true, false, not, ◌&&◌, ◌||◌, Option, none, some, List, [],
  ◌∷◌, ◌++◌, ◌==◌, leb, ltb, if◌then◌else◌, arith, inl, inr, Bool-cases, Option-cases, length,
}
use http_framework.Prelude.Bytes.{Bytes}
use http_framework.Prelude.Maps.{lookup, num_eq, lookup-insert, lookup-erase}
use http_framework.Request.State.{HttpRequest}
use http_framework.Response.{HttpResponse}
use http_framework.Response.Status.{new_response}
use http_framework.Context.{HttpContext, consume_data, data_size, enter_in_flight, leave_in_flight}
use http_framework.ThreadPool.{Submitted, queued, refused, enqueue_detached}
use http_framework.Server.{
  FdBinding, PendingResponse, HttpRequestTask, Effect, added, rearmed_read, rearmed_write, removed,
  closed, sent, woken, HttpServer, emit, lookup_context,
}
use http_framework.Server.Ids.{conn_id_fd, conn_id_generation}
use http_framework.Server.Registry.{
  set_context, set_pending, erase_context, bind, unbound, drop_pending_responses, without_fd,
  tear_down, tear_down_owned, close_bound, close_found, close_connection_id, close_connection,
  conn_id_of, rearm_read,
}
use http_framework.Server.Tasks.{
  mark_context, mark_in_flight, begin_task, after_submission, finish_in_flight_task, request_task,
  enqueue_request_task,
}
use http_framework.Server.Dispatch.{
  Verdict, answered, wait_for_more, consumed, overrun, undecided, verdict_of, carry_out,
  has_current_response, dispatch_buffered_requests,
}

-- What was sent on a descriptor, in the order in which it was sent.
unfoldable pub sent_on : ℕ → List Effect → Bytes
sent_on fd [] = []
sent_on fd (sent f bytes ∷ trace) =
    let before = sent_on fd trace in if f == fd then before ++ bytes else before
sent_on fd (added i conn_id ∷ trace) = sent_on fd trace
sent_on fd (rearmed_read i conn_id ∷ trace) = sent_on fd trace
sent_on fd (rearmed_write i conn_id ∷ trace) = sent_on fd trace
sent_on fd (removed i f ∷ trace) = sent_on fd trace
sent_on fd (closed f ∷ trace) = sent_on fd trace
sent_on fd (woken i ∷ trace) = sent_on fd trace

abbrev pub response_in : Option HttpContext → Option Bytes
response_in none = none
response_in (some c) = c.current_response

-- The response that the i-th reactor is sending on a descriptor.
abbrev pub response_at : ℕ → ℕ → HttpServer → Option Bytes
response_at i fd s = response_in (lookup_context i fd s)

response_in-if :
    (b : Bool) (x y : Option HttpContext)
    → response_in (if b then x else y) ≡ (if b then response_in x else response_in y)
response_in-if true x y = refl
response_in-if false x y = refl

pub response_at-set_context :
    (i fd : ℕ) (c : HttpContext) (s : HttpServer) (j f : ℕ)
    → response_at j f (set_context i fd c s) ≡ (
        if i == j
        then (if fd == f then c.current_response else response_at i f s)
        else response_at j f s)
unfolding lookup_context
response_at-set_context i fd c s j f = elim (Bool-cases (i == j)) [
  | inl here ↦
      rw (here, lookup-insert fd f c (s.reactors i).contexts)
        (response_in-if (fd == f) (some c) (lookup f (s.reactors i).contexts))
  | inr past ↦ rw past refl
]

response_at-erase_context :
    (i fd : ℕ) (s : HttpServer) (j f : ℕ)
    → response_at j f (erase_context i fd s)
      ≡ (if i == j then (if fd == f then none else response_at i f s) else response_at j f s)
unfolding lookup_context erase_context
response_at-erase_context i fd s j f = elim (Bool-cases (i == j)) [
  | inl here ↦
      rw (here, lookup-erase fd f (s.reactors i).contexts)
        (response_in-if (fd == f) none (lookup f (s.reactors i).contexts))
  | inr past ↦ rw past refl
]

response_at-set_pending :
    (i : ℕ) (pending : List PendingResponse) (s : HttpServer) (j f : ℕ)
    → response_at j f (set_pending i pending s) ≡ response_at j f s
unfolding lookup_context
response_at-set_pending i pending s j f = elim (Bool-cases (i == j)) [
  | inl here ↦
      let same_index : i ≡ j = ground arith in
      rw here (ap (λ k. response_in (lookup f (s.reactors k).contexts)) same_index)
  | inr past ↦ rw past refl
]

-- Nothing is sent on the descriptor, and where no response was under way none is now.
pub record IsQuiet (j f : ℕ) (s t : HttpServer) : Type 0 where
  pub unsent : sent_on f t.trace ≡ sent_on f s.trace
  pub empty : response_at j f s ≡ none → response_at j f t ≡ none

module _ (j f : ℕ) where
  pub IsQuiet-refl : (s : HttpServer) → IsQuiet j f s s
  IsQuiet-refl s = record { unsent = refl; empty = λ e. e }

  pub IsQuiet-trans : {s t u : HttpServer} → IsQuiet j f s t → IsQuiet j f t u → IsQuiet j f s u
  IsQuiet-trans p q = record { unsent = q.unsent ∙ p.unsent; empty = λ e. q.empty (p.empty e) }

  pub IsQuiet-if :
      (b : Bool) {s t u : HttpServer}
      → IsQuiet j f s t
      → IsQuiet j f s u
      → IsQuiet j f s (if b then t else u)
  IsQuiet-if true p q = p
  IsQuiet-if false p q = q

  -- A context without a response.
  pub set_context-IsQuiet :
      (i fd : ℕ) (c : HttpContext) (s : HttpServer)
      → c.current_response ≡ none
      → IsQuiet j f s (set_context i fd c s)
  set_context-IsQuiet i fd c s quiet = record {
    unsent = refl;
    empty = λ e.
        response_at-set_context i fd c s j f
        ∙ ground (arith, quiet, e, ap (λ k. response_at k f s));
  }

  as_before :
      (at : ℕ → ℕ → Option Bytes) (i fd : ℕ) (v : Option Bytes)
      → at i fd ≡ v
      → (if i == j then (if fd == f then v else at i f) else at j f) ≡ at j f
  as_before at i fd v e = ground arith

  -- A context in place of one with the same response.
  pub put_back-IsQuiet :
      (i fd : ℕ) (c c' : HttpContext) (s : HttpServer)
      → lookup_context i fd s ≡ some c
      → c'.current_response ≡ c.current_response
      → IsQuiet j f s (set_context i fd c' s)
  put_back-IsQuiet i fd c c' s there same = record {
    unsent = refl;
    empty = λ e.
        response_at-set_context i fd c' s j f
        ∙ as_before (λ a b. response_at a b s) i fd c'.current_response
            (ap response_in there ∙ sym same)
        ∙ e;
  }

  pub erase_context-IsQuiet : (i fd : ℕ) (s : HttpServer) → IsQuiet j f s (erase_context i fd s)
  unfolding erase_context
  erase_context-IsQuiet i fd s = record {
    unsent = refl;
    empty =
        λ e. response_at-erase_context i fd s j f ∙ ground (arith, e, ap (λ k. response_at k f s));
  }

  pub set_pending-IsQuiet :
      (i : ℕ) (pending : List PendingResponse) (s : HttpServer)
      → IsQuiet j f s (set_pending i pending s)
  set_pending-IsQuiet i pending s = record {
    unsent = refl;
    empty = λ e. response_at-set_pending i pending s j f ∙ e;
  }

  -- Other members may change as they like.
  pub fields-IsQuiet :
      (s t : HttpServer) → t.reactors ≡ s.reactors → t.trace ≡ s.trace → IsQuiet j f s t
  unfolding lookup_context
  fields-IsQuiet s t same trace = record {
    unsent = ap (sent_on f) trace;
    empty = λ e. ap (λ r. response_in (lookup f (r j).contexts)) same ∙ e;
  }

  -- An effect that sends nothing there.
  pub emit-IsQuiet :
      (effect : Effect) (s : HttpServer)
      → sent_on f (effect ∷ s.trace) ≡ sent_on f s.trace
      → IsQuiet j f s (emit effect s)
  unfolding lookup_context
  emit-IsQuiet effect s e = record { unsent = e; empty = λ empty. empty }

  pub rearm_read-IsQuiet : (i conn_id : ℕ) (s : HttpServer) → IsQuiet j f s (rearm_read i conn_id s)
  unfolding rearm_read sent_on
  rearm_read-IsQuiet i conn_id s = emit-IsQuiet (rearmed_read i conn_id) s refl
