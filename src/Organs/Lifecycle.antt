-- ===== src/Organs/Lifecycle.antt =====
-- src/organs.cpp: `Organs`, the three supervised servers, each started when it is first asked for.
pub mod Supervised
pub mod Processes
use mathlib.Core.Option
use chimera_ape.Util.Strtol.{ℤ, pos}
use chimera_ape.Base.{
  ℕ, Bool, true, false, not, ◌&&◌, ◌||◌, Option, none, some, List, [], ◌∷◌, ◌++◌, if◌then◌else◌,
  Bytes, codes, bytes_eq, is_empty, isdigit,
}
use chimera_ape.Util.Decimal.{decimal}
use chimera_ape.Supervisor.{
  log_tail, Child, no_child, spawn, waited, port_text, Health, Wait, Signal, stop,
}
use chimera_ape.Organs.Paths.{RuntimePaths}

-- The state of `Organs`: a client is the port of its server.
pub record Organs : Type 0 where
  pub llama_child : Child
  pub qlever_child : Child
  pub turbovec_child : Child
  pub llama_client : Option ℤ
  pub qlever_client : Option ℤ
  pub turbovec_client : Option ℤ
  pub error : Bytes

abbrev pub no_organs : Organs
no_organs = record {
  llama_child = no_child;
  qlever_child = no_child;
  turbovec_child = no_child;
  llama_client = none;
  qlever_client = none;
  turbovec_client = none;
  error = [];
}

-- What a start meets: what `pick_port` gives, which is not looked at, whether the log opens, the forked process,
-- how the wait ends and the log then.
pub record Start : Type 0 where
  pub port : ℤ
  pub opens : Bool
  pub fork : Option ℕ
  pub health : Health
  pub log : Option Bytes

abbrev all_digits : Bytes → Bool
all_digits [] = true
all_digits (c ∷ s) = isdigit c && all_digits s

-- The flags for the graphics card.
unfoldable pub gpu_flags : Bytes → List Bytes
unfolding bytes_eq isdigit
gpu_flags gpu =
    if bytes_eq gpu (codes "off") || bytes_eq gpu (codes "disable")
    then codes "--gpu" ∷ codes "disable" ∷ []
    else if is_empty gpu || bytes_eq gpu (codes "auto")
    then codes "-ngl" ∷ codes "999" ∷ []
    else if all_digits gpu
    then codes "-ngl" ∷ gpu ∷ []
    else codes "--gpu" ∷ gpu ∷ codes "-ngl" ∷ codes "999" ∷ []

unfoldable pub llama_argv : RuntimePaths → Bytes → ℤ → List Bytes
unfolding gpu_flags decimal
llama_argv paths gpu port =
    paths.llamafile
      ∷ codes "--server"
      ∷ codes "-m"
      ∷ paths.model
      ∷ codes "--embeddings"
      ∷ codes "--pooling"
      ∷ codes "last"
      ∷ codes "-c"
      ∷ codes "8192"
      ∷ codes "-np"
      ∷ codes "2"
      ∷ codes "-b"
      ∷ codes "2048"
      ∷ codes "-ub"
      ∷ codes "2048"
      ∷ codes "--host"
      ∷ codes "127.0.0.1"
      ∷ codes "--port"
      ∷ port_text port
      ∷ (if not (is_empty paths.mmproj) then codes "--mmproj" ∷ paths.mmproj ∷ [] else [])
    ++ gpu_flags gpu

unfoldable pub qlever_argv : RuntimePaths → Bytes → ℤ → List Bytes
unfolding decimal
qlever_argv paths db_dir port =
    paths.qlever_server
    ∷ codes "-i"
    ∷ (db_dir ++ codes "/qlever/chimera")
    ∷ codes "-p"
    ∷ port_text port
    ∷ codes "-t"
    ∷ codes "--persist-updates"
    ∷ codes "-n"
    ∷ []

unfoldable pub turbovec_argv : RuntimePaths → Bytes → ℤ → List Bytes
unfolding decimal
turbovec_argv paths db_dir port =
    paths.turbovec
    ∷ codes "--port"
    ∷ port_text port
    ∷ codes "--path"
    ∷ (db_dir ++ codes "/turbovec/index.tvim")
    ∷ []

abbrev pub index_argv : RuntimePaths → Bytes → Bytes → List Bytes
index_argv paths db_dir ttl_path =
    paths.qlever_index
    ∷ codes "-i"
    ∷ (db_dir ++ codes "/qlever/chimera")
    ∷ codes "-F"
    ∷ codes "ttl"
    ∷ codes "-f"
    ∷ ttl_path
    ∷ codes "-W"
    ∷ codes "-S"
    ∷ codes "bm25"
    ∷ []

abbrev after_build : Bool → Option Bytes → Child × Bool → Option Bytes
after_build index_exists log (c, false) = some c.error
after_build index_exists log (c, true) =
    if index_exists then none else some (codes "index build failed; log tail:\n" ++ log_tail log)

-- The one-shot index builder: the error, or `none` if the index is there once it has ended.
unfoldable pub build_qlever_index : Bytes → Bool → Option ℕ → Bool → Option Bytes → Option Bytes
unfolding spawn log_tail
build_qlever_index db_dir opens fork index_exists log =
    after_build index_exists log
      (spawn opens fork (db_dir ++ codes "/logs/qlever-index.log") no_child)

-- Spawning a child and waiting for its server; the error is that of `Organs`.
pub record Launched : Type 0 where
  pub child : Child
  pub refusal : Option Bytes

abbrev after_wait : Bytes → Child × Bool → Launched
after_wait name (c, true) = record { child = c; refusal = none }
after_wait name (c, false) = record { child = c; refusal = some (name ++ codes ": " ++ c.error) }

abbrev after_spawn : Bytes → Start → Child × Bool → Launched
after_spawn name w (c, true) = after_wait name (waited w.port w.log w.health c)
after_spawn name w (c, false) = record {
  child = c;
  refusal = some (name ++ codes " spawn: " ++ c.error);
}

unfoldable pub launch : Bytes → Bytes → Start → Child → Launched
unfolding spawn waited
launch name log_path w c = after_spawn name w (spawn w.opens w.fork log_path c)

abbrev client_of : ℤ → Launched → Option ℤ
client_of port l = elim l.refusal [ none ↦ some port | some e ↦ none ]

abbrev error_of : Bytes → Launched → Bytes
error_of before l = elim l.refusal [ none ↦ before | some e ↦ e ]

-- A server that has a client is left as it is.
abbrev pub unless_started : Option ℤ → Organs → Organs → Organs
unless_started (some port) st after = st
unless_started none st after = after

module _ (db_dir : Bytes) where
  abbrev llama_launch : Start → Organs → Launched
  llama_launch w st =
      launch (codes "llamafile") (db_dir ++ codes "/logs/llamafile.log") w st.llama_child

  abbrev pub llama_after : Start → Organs → Organs
  llama_after w st = record st {
    llama_child = (llama_launch w st).child;
    llama_client = client_of w.port (llama_launch w st);
    error = error_of st.error (llama_launch w st);
  }

  unfoldable pub llama : Start → Organs → Organs
  unfolding launch
  llama w st = unless_started st.llama_client st (llama_after w st)

  abbrev turbovec_launch : Start → Organs → Launched
  turbovec_launch w st =
      launch (codes "turbovec") (db_dir ++ codes "/logs/turbovec.log") w st.turbovec_child

  abbrev pub turbovec_after : Start → Organs → Organs
  turbovec_after w st = record st {
    turbovec_child = (turbovec_launch w st).child;
    turbovec_client = client_of w.port (turbovec_launch w st);
    error = error_of st.error (turbovec_launch w st);
  }

  unfoldable pub turbovec : Start → Organs → Organs
  unfolding launch
  turbovec w st = unless_started st.turbovec_client st (turbovec_after w st)

  abbrev qlever_launch : Start → Organs → Launched
  qlever_launch w st =
      launch (codes "qlever") (db_dir ++ codes "/logs/qlever-server.log") w st.qlever_child

  abbrev pub qlever_after : Start → Organs → Organs
  qlever_after w st = record st {
    qlever_child = (qlever_launch w st).child;
    qlever_client = client_of w.port (qlever_launch w st);
    error = error_of st.error (qlever_launch w st);
  }

  -- The graph server also needs an index.
  unfoldable pub qlever : Bool → Start → Organs → Organs
  unfolding launch
  qlever index_exists w st = unless_started st.qlever_client st (
      if index_exists
      then qlever_after w st
      else record st { error = codes "no QLever index yet (ingest first)" })

  unfoldable pub stop_qlever : List Wait → Organs → Organs
  unfolding stop
  stop_qlever waits st = record st {
    qlever_client = none;
    qlever_child = (stop waits st.qlever_child).0;
  }

  unfoldable pub stop_all : List Wait → List Wait → List Wait → Organs → Organs
  unfolding stop
  stop_all llama_waits turbovec_waits qlever_waits st = record st {
    llama_client = none;
    llama_child = (stop llama_waits st.llama_child).0;
    turbovec_client = none;
    turbovec_child = (stop turbovec_waits st.turbovec_child).0;
    qlever_client = none;
    qlever_child = (stop qlever_waits st.qlever_child).0;
  }

  -- `stop_all` has the vector store persist if it was started.
  abbrev pub persists_on_stop : Organs → Bool
  persists_on_stop st = elim st.turbovec_client [ none ↦ false | some port ↦ true ]
