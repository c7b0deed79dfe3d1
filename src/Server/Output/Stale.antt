-- ===== src/Server/Output/Stale.antt =====
-- src/http/HttpServer.cpp: a response that comes too late.
use http_framework.Prelude.{
  ℕ, ◌≡◌, ◌≢◌, ◌↔◌, refl, ap, ◌∙◌, true, Option, none, some, arith, inl, inr, Bool-cases,
}
use http_framework.Prelude.Bytes.{Bytes}
use http_framework.Prelude.Maps.{lookup, num_eq}
use http_framework.Server.{FdBinding, PendingResponse, HttpServer}
use http_framework.Server.Ids.{conn_id_fd, conn_id_generation}
use http_framework.Server.Registry.{bound, owns_binding, owns_connection}
use http_framework.Server.Output.{SendScript, count_stale, deliver}
use http_framework.Server.Invariant.{generation_of, IsRegistered}

module _ (s : HttpServer) (ok : IsRegistered s) (i fd g : ℕ) where
  owns_proper :
      (b : FdBinding)
      → lookup fd s.conns ≡ some b
      → owns_binding i g (some b) ≡ true
      → lookup fd s.conns ≡ some (bound g i)
  owns_proper b e h =
      let p = ok.proper fd b e (ground arith) in
      e ∙ ap some (p.shape ∙ ground (arith, ap (λ (v : FdBinding). v.owner) p.shape))

  owned_binding :
      (o : Option FdBinding)
      → lookup fd s.conns ≡ o
      → owns_binding i g o ≡ true
      → generation_of i fd s ≡ some g
  owned_binding none e h = cc
  owned_binding (some b) e h = ok.kept i fd g (owns_proper b e h)

  owning_binding : generation_of i fd s ≡ some g → owns_binding i g (lookup fd s.conns) ≡ true
  owning_binding there =
      let p = ok.proper fd (bound g i) (ok.held i fd g there) refl in
      rw (ok.held i fd g there) (ground (arith, p.positive))

-- ownsConnection holds exactly where the reactor has a context on the descriptor of the identifier's
-- generation.
pub owns_connection_lem :
    (s : HttpServer) (fd i conn_id : ℕ)
    → IsRegistered s
    → (owns_connection fd i conn_id s ≡ true)
      ↔ (generation_of i fd s ≡ some (conn_id_generation conn_id))
unfolding owns_connection
owns_connection_lem s fd i conn_id ok = (
  owned_binding s ok i fd (conn_id_generation conn_id) (lookup fd s.conns) refl,
  owning_binding s ok i fd (conn_id_generation conn_id),
)

-- A response whose connection is gone, or whose descriptor has a new connection by now, is dropped: the
-- server is as it was, but for the count of stale callbacks; nothing is sent and nothing closed.
pub deliver-stale :
    (date : Bytes) (now i : ℕ) (item : PendingResponse) (script : SendScript) (s : HttpServer)
    → IsRegistered s
    → generation_of i (conn_id_fd item.conn_id) s ≢ some (conn_id_generation item.conn_id)
    → deliver date now i item script s ≡ count_stale s
unfolding deliver
deliver-stale date now i item script s ok gone =
    elim (Bool-cases (owns_connection (conn_id_fd item.conn_id) i item.conn_id s)) [
      | inl owns ↦
          absurd (gone ((owns_connection_lem s (conn_id_fd item.conn_id) i item.conn_id ok).0 owns))
      | inr stale ↦ rw stale refl
    ]
