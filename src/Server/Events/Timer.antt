-- ===== src/Server/Events/Timer.antt =====
-- src/http/HttpServer.cpp: the clean-up of idle connections closes those that are idle, and no other.
use http_framework.Prelude.{
  ℕ, ◌+◌, ◌*◌, ◌≤◌, ◌<◌, ◌≡◌, ◌≢◌, ◌⊎◌, ◌↔◌, length, refl, ap, ap₂, sym, ◌∙◌, subst, Bool, true,
  false, none, some, List, [], ◌∷◌, ◌==◌, if◌then◌else◌, arith, inl, inr, Bool-cases,
}
use http_framework.Prelude.Bytes.{Bytes}
use http_framework.Prelude.Maps.{Assoc, lookup, num_eq}
use http_framework.Context.{HttpContext, peek_data}
use http_framework.Server.{HttpServer, lookup_context}
use http_framework.Server.Ids.{u32_mod, make_conn_id, conn_id_fd, conn_id_generation}
use http_framework.Server.Registry.{close_connection_id}
use http_framework.Server.Events.{is_stale, idle_conns, close_all, handle_timer}
use http_framework.Server.Invariant.{generation_in, generation_of, IsRegistered}
use http_framework.Server.Invariant.Close.{close_connection_id-IsRegistered}
use http_framework.Server.Invariant.Once.{
  close_connection_id-closes, close_connection_id-others, close_connection_id-cases,
}

abbrev Among : ℕ → List ℕ → Type 0
Among x [] = ⊥
Among x (y ∷ ys) = (x ≡ y) ⊎ Among x ys

-- None of the identifiers names the connection of generation `g` on `fd`.
abbrev Apart : ℕ → ℕ → List ℕ → Type 0
Apart fd g [] = Unit {0}
Apart fd g (conn_id ∷ ids) =
    ((fd ≢ conn_id_fd conn_id) ⊎ (g ≢ conn_id_generation conn_id)) × Apart fd g ids

close_all-others :
    (ids : List ℕ) (i fd g : ℕ) (s : HttpServer)
    → IsRegistered s
    → generation_of i fd s ≡ some g
    → Apart fd g ids
    → generation_of i fd (close_all ids s) ≡ some g
unfolding close_all
close_all-others [] i fd g s ok there apart = there
close_all-others (conn_id ∷ ids) i fd g s ok there apart =
    close_all-others ids i fd g (close_connection_id conn_id s)
      (close_connection_id-IsRegistered conn_id s ok)
      (close_connection_id-others s ok i fd g there conn_id apart.0) apart.1

close_all-none :
    (ids : List ℕ) (i fd : ℕ) (s : HttpServer)
    → IsRegistered s
    → generation_of i fd s ≡ none
    → generation_of i fd (close_all ids s) ≡ none
unfolding close_all
close_all-none [] i fd s ok gone = gone
close_all-none (conn_id ∷ ids) i fd s ok gone =
    close_all-none ids i fd (close_connection_id conn_id s)
      (close_connection_id-IsRegistered conn_id s ok)
      (elim (close_connection_id-cases s ok i fd conn_id) [
        | inl same ↦ same ∙ gone
        | inr out ↦ out
      ])

close_all-closes :
    (ids : List ℕ) (i fd g : ℕ) (s : HttpServer)
    → IsRegistered s
    → fd < u32_mod
    → generation_of i fd s ≡ some g
    → Among (make_conn_id fd g) ids
    → generation_of i fd (close_all ids s) ≡ none
unfolding close_all
close_all-closes [] i fd g s ok small there among = absurd among
close_all-closes (conn_id ∷ ids) i fd g s ok small there (inl e) =
    close_all-none ids i fd (close_connection_id conn_id s)
      (close_connection_id-IsRegistered conn_id s ok)
      (subst (λ n. generation_of i fd (close_connection_id n s) ≡ none) e
        (close_connection_id-closes i fd g s ok small there).0)
close_all-closes (conn_id ∷ ids) i fd g s ok small there (inr later) =
    let t = close_connection_id conn_id s in
    let ok' = close_connection_id-IsRegistered conn_id s ok in
    elim (close_connection_id-cases s ok i fd conn_id) [
      | inl same ↦ close_all-closes ids i fd g t ok' small (same ∙ there) later
      | inr out ↦ close_all-none ids i fd t ok' out
    ]

Among-if : (b : Bool) (x y : ℕ) (ys : List ℕ) → Among x ys → Among x (if b then y ∷ ys else ys)
Among-if true x y ys h = inr h
Among-if false x y ys h = h

Among-first :
    (b : Bool) (x y : ℕ) (ys : List ℕ) → b ≡ true → x ≡ y → Among x (if b then y ∷ ys else ys)
Among-first true x y ys h e = inl e
Among-first false x y ys h e = cc

Apart-if :
    (b : Bool) (fd g conn_id : ℕ) (ids : List ℕ)
    → (b ≡ true → (fd ≢ conn_id_fd conn_id) ⊎ (g ≢ conn_id_generation conn_id))
    → Apart fd g ids
    → Apart fd g (if b then conn_id ∷ ids else ids)
Apart-if true fd g conn_id ids h k = (h refl, k)
Apart-if false fd g conn_id ids h k = k

other_fd :
    (fd k generation : ℕ)
    → k < u32_mod
    → (k == fd) ≡ false
    → fd ≢ conn_id_fd (make_conn_id k generation)
unfolding make_conn_id conn_id_fd
other_fd fd k generation small past e = ground arith

some_inj : (d c : HttpContext) → some d ≡ some c → d ≡ c
some_inj d c e = cc

-- A std::map of descriptors: an entry for a key, and the keys are `int`s.
abbrev pub IsFdMap : Assoc ℕ HttpContext → Type 0
IsFdMap [] = Unit {0}
IsFdMap ((fd, c) ∷ contexts) = (fd < u32_mod) × (lookup fd contexts ≡ none) × IsFdMap contexts

module _ (date : Bytes) (now timeout : ℕ) where
  idle_conns-stale :
      (contexts : Assoc ℕ HttpContext) (fd : ℕ) (c : HttpContext)
      → lookup fd contexts ≡ some c
      → is_stale date now timeout c ≡ true
      → Among (make_conn_id fd c.connection_generation) (idle_conns date now timeout contexts)
  unfolding idle_conns lookup
  idle_conns-stale [] fd c e stale = cc
  idle_conns-stale ((k, d) ∷ contexts) fd c e stale = elim (Bool-cases (k == fd)) [
    | inl here ↦
        let same_fd : k ≡ fd = ground arith in
        let same : d ≡ c = some_inj d c (rw here at e) in
        Among-first (is_stale date now timeout d) (make_conn_id fd c.connection_generation)
          (make_conn_id k d.connection_generation) (idle_conns date now timeout contexts)
          (ap (λ x. is_stale date now timeout x) same ∙ stale)
          (sym (ap₂ (λ n (x : HttpContext). make_conn_id n x.connection_generation) same_fd same))
    | inr past ↦
        Among-if (is_stale date now timeout d) (make_conn_id fd c.connection_generation)
          (make_conn_id k d.connection_generation) (idle_conns date now timeout contexts)
          (idle_conns-stale contexts fd c (rw past at e) stale)
  ]

  idle_conns-absent :
      (contexts : Assoc ℕ HttpContext) (fd g : ℕ)
      → IsFdMap contexts
      → lookup fd contexts ≡ none
      → Apart fd g (idle_conns date now timeout contexts)
  unfolding idle_conns lookup
  idle_conns-absent [] fd g m e = tt
  idle_conns-absent ((k, d) ∷ contexts) fd g m e = elim (Bool-cases (k == fd)) [
    | inl here ↦ cc (rw here at e)
    | inr past ↦
        Apart-if (is_stale date now timeout d) fd g (make_conn_id k d.connection_generation)
          (idle_conns date now timeout contexts)
          (λ _. inl (other_fd fd k d.connection_generation m.0 past))
          (idle_conns-absent contexts fd g m.2 (rw past at e))
  ]

  idle_conns-Apart :
      (contexts : Assoc ℕ HttpContext) (fd : ℕ) (c : HttpContext)
      → IsFdMap contexts
      → lookup fd contexts ≡ some c
      → is_stale date now timeout c ≡ false
      → Apart fd c.connection_generation (idle_conns date now timeout contexts)
  unfolding idle_conns lookup
  idle_conns-Apart [] fd c m e fresh = tt
  idle_conns-Apart ((k, d) ∷ contexts) fd c m e fresh = elim (Bool-cases (k == fd)) [
    | inl here ↦
        let same_fd : k ≡ fd = ground arith in
        let same : d ≡ c = some_inj d c (rw here at e) in
        Apart-if (is_stale date now timeout d) fd c.connection_generation
          (make_conn_id k d.connection_generation) (idle_conns date now timeout contexts)
          (λ stale. cc (sym stale ∙ ap (λ x. is_stale date now timeout x) same ∙ fresh))
          (idle_conns-absent contexts fd c.connection_generation m.2
            (subst (λ n. lookup n contexts ≡ none) same_fd m.1))
    | inr past ↦
        Apart-if (is_stale date now timeout d) fd c.connection_generation
          (make_conn_id k d.connection_generation) (idle_conns date now timeout contexts)
          (λ _. inl (other_fd fd k d.connection_generation m.0 past))
          (idle_conns-Apart contexts fd c m.2 (rw past at e) fresh)
  ]

-- No request of the connection is in flight, and its last activity, or the start of the bytes that it holds,
-- is so many seconds ago, in nanoseconds.
abbrev pub IsIdle : ℕ → ℕ → HttpContext → Type 0
IsIdle now timeout c =
    (c.in_flight ≡ 0)
    × ((c.last_active + timeout * 1000000000 ≤ now)
        ⊎ ((0 < length (peek_data c)) × (c.request_start + timeout * 1000000000 ≤ now)))

is_stale-IsIdle :
    (date : Bytes) (now timeout : ℕ) (c : HttpContext)
    → 0 < timeout
    → (is_stale date now timeout c ≡ true) ↔ IsIdle now timeout c
unfolding is_stale
is_stale-IsIdle date now timeout c on = (λ e. ground arith, λ idle. ground arith)

some-ne-none : {A : Type 0} (x : A) → some x ≢ none
some-ne-none x e = cc

-- After handleTimer, with a timeout set, a connection of the reactor is gone exactly where it is idle: no
-- request of it is in flight, and its last activity, or the start of the bytes that it holds, is the
-- timeout or more ago; and it is there, with its generation, exactly where it is not idle. So a connection
-- with a request in flight is never closed, and no idle one stays.
pub handle_timer_lem :
    (date : Bytes) (now i fd : ℕ) (c : HttpContext) (s : HttpServer)
    → IsRegistered s
    → 0 < s.idle_timeout_sec
    → IsFdMap (s.reactors i).contexts
    → fd < u32_mod
    → lookup_context i fd s ≡ some c
    → ((generation_of i fd (handle_timer date now i s) ≡ none) ↔ IsIdle now s.idle_timeout_sec c)
      × ((generation_of i fd (handle_timer date now i s) ≡ some c.connection_generation)
          ↔ ¬ (IsIdle now s.idle_timeout_sec c))
unfolding handle_timer lookup_context
handle_timer_lem date now i fd c s ok on m small there =
    let ids = idle_conns date now s.idle_timeout_sec (s.reactors i).contexts in
    let g = c.connection_generation in
    let live : generation_of i fd s ≡ some g = ap generation_in there in
    let enabled : (s.idle_timeout_sec == 0) ≡ false = ground arith in
    let (idle_if, stale_if) = is_stale-IsIdle date now s.idle_timeout_sec c on in
    elim (Bool-cases (is_stale date now s.idle_timeout_sec c)) [
      | inl stale ↦
          let gone : generation_of i fd (close_all ids s) ≡ none =
            close_all-closes ids i fd g s ok small live (
              idle_conns-stale date now s.idle_timeout_sec (s.reactors i).contexts fd c there
                stale) in
          rw enabled (
            (λ _. idle_if stale, λ _. gone),
            (λ e. absurd (some-ne-none g (sym e ∙ gone)), λ busy. absurd (busy (idle_if stale))),
          )
      | inr fresh ↦
          let kept : generation_of i fd (close_all ids s) ≡ some g =
            close_all-others ids i fd g s ok live (
              idle_conns-Apart date now s.idle_timeout_sec (s.reactors i).contexts fd c m there
                fresh) in
          rw enabled (
            (λ e. absurd (some-ne-none g (sym kept ∙ e)), λ idle. cc (sym fresh ∙ stale_if idle)),
            (λ _ idle. cc (sym fresh ∙ stale_if idle), λ _. kept),
          )
    ]
