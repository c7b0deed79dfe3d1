-- ===== src/Server/Invariant/Once.antt =====
-- src/http/HttpServer.cpp: closeConnectionId closes the connection that its identifier names, once, and
-- no other.
use http_framework.Prelude.{
  ℕ, ◌+◌, ◌<◌, ◌≡◌, ◌≢◌, ◌⊎◌, refl, subst, ap, sym, ◌∙◌, true, false, Option, none, some, ◌∷◌, ◌==◌,
  if◌then◌else◌, arith, inl, inr, Bool-cases, lt→ltb,
}
use http_framework.Prelude.Maps.{lookup, num_eq}
use http_framework.Server.{FdBinding, HttpServer, removed, closed}
use http_framework.Server.Ids.{
  u32_mod, make_conn_id, conn_id_fd, conn_id_generation, make_conn_id_fields,
}
use http_framework.Server.Registry.{
  bound, unbound, bind, erase_context, tear_down, drop_pending_responses, tear_down_owned,
  close_bound, close_found, close_connection_id,
}
use http_framework.Server.Invariant.{generation_of, IsProper, IsRegistered}
use http_framework.Server.Invariant.Same.{Same, Same-fields}
use http_framework.Server.Invariant.Close.{
  after_close, generation_of-after_close, conns-after_close, active_falls,
}

same_owner : (i j : ℕ) → some i ≡ some j → i ≡ j
same_owner i j e = cc

-- A descriptor that is not a connection's is left alone.
close_unbound :
    (conn_id : ℕ) (b : FdBinding) (t : HttpServer)
    → lookup (conn_id_fd conn_id) t.conns ≡ some b
    → b.context ≡ false
    → close_connection_id conn_id t ≡ t
unfolding close_connection_id close_found close_bound
close_unbound conn_id b t e off = elim (Bool-cases (conn_id == 0)) [
  | inl zero_id ↦ rw zero_id refl
  | inr some_id ↦ rw (some_id, close_found, e) (rw off refl)
]

trace-after_close :
    (i fd : ℕ) (b : FdBinding) (s : HttpServer)
    → (after_close i fd b s).trace ≡ closed fd ∷ removed i fd ∷ s.trace
unfolding tear_down drop_pending_responses erase_context
trace-after_close i fd b s = refl

stale_counted-Same :
    (s : HttpServer) → Same s (record s { stale_callbacks_dropped = s.stale_callbacks_dropped + 1 })
stale_counted-Same s = Same-fields s _ refl refl refl refl refl

cut_cases :
    (G : ℕ → ℕ → Option ℕ) (i fd j f : ℕ)
    → ((if i == j then (if fd == f then none else G i f) else G j f) ≡ G j f)
      ⊎ ((if i == j then (if fd == f then none else G i f) else G j f) ≡ none)
cut_cases G i fd j f = elim (Bool-cases (i == j)) [
  | inr past ↦ rw past (inl refl)
  | inl here ↦ elim (Bool-cases (fd == f)) [
    | inl out ↦ rw (here, out) (inr refl)
    | inr other ↦
        let same_index : i ≡ j = ground arith in rw (here, other) (inl (ap (λ k. G k f) same_index))
  ]
]

module _ (i fd g : ℕ) (s : HttpServer) (ok : IsRegistered s) (small : fd < u32_mod)
    (live : generation_of i fd s ≡ some g) where
  IsProper-live : IsProper s (bound g i)
  IsProper-live = ok.proper fd (bound g i) (ok.held i fd g live) refl

  id_fields :
      (conn_id_fd (make_conn_id fd g) ≡ fd)
      × (conn_id_generation (make_conn_id fd g) ≡ g)
      × (0 < make_conn_id fd g)
  id_fields = make_conn_id_fields fd g small IsProper-live.narrow IsProper-live.positive

  owner_exists : i < s.sub_reactor_count
  owner_exists =
      let p = IsProper-live in
      subst (λ k. k < s.sub_reactor_count)
        (sym (same_owner i p.reactor (ap (λ (b : FdBinding). b.owner) p.shape))) p.exists

  pub close_live : close_connection_id (make_conn_id fd g) s ≡ after_close i fd (bound g i) s
  unfolding close_connection_id close_found close_bound
  close_live =
      let (same_fd, same_generation, positive) = id_fields in
      let some_id : (make_conn_id fd g == 0) ≡ false = ground arith in
      let same : (g == g) ≡ true = ground arith in
      rw (some_id, same_fd, same_generation, ok.held i fd g live)
        (rw (same, lt→ltb i s.sub_reactor_count owner_exists) refl)

  -- The identifier of a connection that is there closes it: the reactor has it no more, activeConnections
  -- falls by one, the descriptor is taken from epoll and then closed, and closing by the same
  -- identifier once more changes nothing.
  pub close_connection_id-closes :
      (generation_of i fd (close_connection_id (make_conn_id fd g) s) ≡ none)
      × (s.active_connections ≡ (close_connection_id (make_conn_id fd g) s).active_connections + 1)
      × ((close_connection_id (make_conn_id fd g) s).trace ≡ closed fd ∷ removed i fd ∷ s.trace)
      × (close_connection_id (make_conn_id fd g) (close_connection_id (make_conn_id fd g) s)
          ≡ close_connection_id (make_conn_id fd g) s)
  close_connection_id-closes = rw close_live (
    generation_of-after_close i fd (bound g i) s i fd ∙ ground arith,
    active_falls i fd g s ok (ok.held i fd g live),
    trace-after_close i fd (bound g i) s,
    close_unbound (make_conn_id fd g) (unbound (bound g i)) (after_close i fd (bound g i) s)
        (rw id_fields.0 (conns-after_close i fd (bound g i) s fd ∙ ground arith)) refl,
  )

module _ (s : HttpServer) (ok : IsRegistered s) (j f h : ℕ)
    (there : generation_of j f s ≡ some h) where
  kept_by :
      (i fd g : ℕ)
      → lookup fd s.conns ≡ some (bound g i)
      → (f ≢ fd) ⊎ (h ≢ g)
      → (if i == j then (if fd == f then none else generation_of i f s) else generation_of j f s)
        ≡ some h
  kept_by i fd g e apart = ground (arith, ok.held j f h there)

  kept_by_bound :
      (fd : ℕ) (b : FdBinding) (generation : ℕ)
      → lookup fd s.conns ≡ some b
      → (f ≢ fd) ⊎ (h ≢ generation)
      → generation_of j f (close_bound b fd generation s) ≡ some h
  unfolding close_bound
  kept_by_bound fd b generation e apart = elim (Bool-cases b.context) [
    | inr off ↦ rw off there
    | inl on ↦ elim (Bool-cases (b.generation == generation)) [
      | inr other ↦ rw (on, other) ((stale_counted-Same s).generations j f ∙ there)
      | inl same ↦
          let p = ok.proper fd b e on in
          let i = p.reactor in
          rw (on, same)
            (subst
              (λ v. generation_of j f (tear_down_owned v.owner fd (bind fd (unbound v) s)) ≡ some h)
              (sym p.shape)
              (rw (lt→ltb i s.sub_reactor_count p.exists) (
                generation_of-after_close i fd (bound b.generation i) s j f
                ∙ kept_by i fd b.generation (e ∙ ap some p.shape) (ground arith))))
    ]
  ]

  kept_by_found :
      (o : Option FdBinding) (fd generation : ℕ)
      → lookup fd s.conns ≡ o
      → (f ≢ fd) ⊎ (h ≢ generation)
      → generation_of j f (close_found o fd generation s) ≡ some h
  unfolding close_found
  kept_by_found none fd generation e apart = there
  kept_by_found (some b) fd generation e apart = kept_by_bound fd b generation e apart

  pub close_connection_id-others :
      (conn_id : ℕ)
      → (f ≢ conn_id_fd conn_id) ⊎ (h ≢ conn_id_generation conn_id)
      → generation_of j f (close_connection_id conn_id s) ≡ some h
  unfolding close_connection_id
  close_connection_id-others conn_id apart = elim (Bool-cases (conn_id == 0)) [
    | inl zero_id ↦ rw zero_id there
    | inr some_id ↦ rw some_id (
        kept_by_found (lookup (conn_id_fd conn_id) s.conns) (conn_id_fd conn_id)
          (conn_id_generation conn_id) refl apart)
  ]

module _ (s : HttpServer) (ok : IsRegistered s) (j f : ℕ) where
  cases_bound :
      (fd : ℕ) (b : FdBinding) (generation : ℕ)
      → lookup fd s.conns ≡ some b
      → (generation_of j f (close_bound b fd generation s) ≡ generation_of j f s)
        ⊎ (generation_of j f (close_bound b fd generation s) ≡ none)
  unfolding close_bound
  cases_bound fd b generation e = elim (Bool-cases b.context) [
    | inr off ↦ rw off (inl refl)
    | inl on ↦ elim (Bool-cases (b.generation == generation)) [
      | inr other ↦ rw (on, other) (inl ((stale_counted-Same s).generations j f))
      | inl same ↦
          let p = ok.proper fd b e on in
          let i = p.reactor in
          rw (on, same)
            (subst
              (λ v.
                (generation_of j f (tear_down_owned v.owner fd (bind fd (unbound v) s))
                  ≡ generation_of j f s)
                ⊎ (generation_of j f (tear_down_owned v.owner fd (bind fd (unbound v) s)) ≡ none))
              (sym p.shape)
              (rw (lt→ltb i s.sub_reactor_count p.exists) (
                rw (generation_of-after_close i fd (bound b.generation i) s j f)
                  (cut_cases (λ a k. generation_of a k s) i fd j f))))
    ]
  ]

  cases_found :
      (o : Option FdBinding) (fd generation : ℕ)
      → lookup fd s.conns ≡ o
      → (generation_of j f (close_found o fd generation s) ≡ generation_of j f s)
        ⊎ (generation_of j f (close_found o fd generation s) ≡ none)
  unfolding close_found
  cases_found none fd generation e = inl refl
  cases_found (some b) fd generation e = cases_bound fd b generation e

  -- Closing makes no connection.
  pub close_connection_id-cases :
      (conn_id : ℕ)
      → (generation_of j f (close_connection_id conn_id s) ≡ generation_of j f s)
        ⊎ (generation_of j f (close_connection_id conn_id s) ≡ none)
  unfolding close_connection_id
  close_connection_id-cases conn_id = elim (Bool-cases (conn_id == 0)) [
    | inl zero_id ↦ rw zero_id (inl refl)
    | inr some_id ↦ rw some_id (
        cases_found (lookup (conn_id_fd conn_id) s.conns) (conn_id_fd conn_id)
          (conn_id_generation conn_id) refl)
  ]
