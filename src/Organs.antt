-- ===== src/Organs.antt =====
-- src/organs.cpp: the clients of the three servers and their supervision. Numbers of JSON and
-- components of vectors are of one type `D`, floating point in the code, whose operations and the
-- JSON library's `dump` are parameters.
pub mod Answers
pub mod Clients
pub mod Placement
pub mod Paths
pub mod Lifecycle
use chimera_ape.Base.{ℕ, Bool, Option, List, Bytes, Result}
use chimera_ape.Http.{HttpResponse}
use chimera_ape.Json.{Json, JsonLib}

-- `get<size_t>` and `get<uint64_t>` are `to_count`, with `none` for a number they do not take.
pub record Numbers (D : Type 0) : Type 0 where
  pub zero : D
  pub plus : D → D → D
  pub times : D → D → D
  pub is_positive : D → Bool
  pub inverse_root : D → D
  pub to_count : D → Option ℕ
  pub of_count : ℕ → D

-- What the clients reach a server with: `http_get` and `http_post` on the client's port.
pub record Server (D : Type 0) : Type 0 where
  pub json : JsonLib D
  pub numbers : Numbers D
  pub dump : Json D → Result Bytes
  pub get : Bytes → Option HttpResponse
  pub post : Bytes → Bytes → Bytes → Option HttpResponse

pub record Hit (D : Type 0) : Type 0 where
  pub vec_key : ℕ
  pub score : D
