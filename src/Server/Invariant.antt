-- ===== src/Server/Invariant.antt =====
-- src/http/HttpServer.cpp: what conns_ and the contexts of the reactors have to do with each other.
pub mod Conns
pub mod Same
pub mod Close
pub mod Once
pub mod Accept
pub mod Steps
pub mod Sending
pub mod Handlers
use http_framework.Prelude.{ℕ, ◌<◌, ◌≡◌, refl, ap, sym, ◌∙◌, Bool, true, Option, none, some, arith}
use http_framework.Prelude.Maps.{lookup, num_eq}
use http_framework.Context.{HttpContext}
use http_framework.Server.{FdBinding, HttpServer, lookup_context}
use http_framework.Server.Ids.{u32_mod}
use http_framework.Server.Registry.{bound}
use http_framework.Server.Invariant.Conns.{open_count, IsUnique}

abbrev pub generation_in : Option HttpContext → Option ℕ
generation_in none = none
generation_in (some c) = some c.connection_generation

-- The generation of the connection that the i-th reactor has on a descriptor.
abbrev pub generation_of : ℕ → ℕ → HttpServer → Option ℕ
generation_of i fd s = generation_in (lookup_context i fd s)

-- A binding that says connection is the binding of a reactor that exists, with a proper generation.
pub record IsProper (s : HttpServer) (b : FdBinding) : Type 0 where
  pub reactor : ℕ
  pub shape : b ≡ bound b.generation reactor
  pub exists : reactor < s.sub_reactor_count
  pub positive : 0 < b.generation
  pub narrow : b.generation < u32_mod

-- A reactor has a context on a descriptor exactly where conns_ binds the descriptor to that reactor and
-- the context's generation, and activeConnections counts these
-- bindings; a descriptor has one binding, and a generation is never 0.
pub record IsRegistered (s : HttpServer) : Type 0 where
  pub held : (i fd g : ℕ) → generation_of i fd s ≡ some g → lookup fd s.conns ≡ some (bound g i)
  pub kept : (i fd g : ℕ) → lookup fd s.conns ≡ some (bound g i) → generation_of i fd s ≡ some g
  pub proper :
      (fd : ℕ) (b : FdBinding) → lookup fd s.conns ≡ some b → b.context ≡ true → IsProper s b
  pub counted : s.active_connections ≡ open_count s.conns
  pub unique : IsUnique s.conns
  pub narrow_counter : s.generation_counter < u32_mod
  pub some_reactor : 0 < s.sub_reactor_count
