-- ===== src/Organs/Lifecycle/Processes.antt =====
-- src/organs.cpp, src/supervisor.cpp: the processes that the children of `Organs` have started, also
-- those that a child no longer knows.
pub mod Slots
pub mod Stopped
use mathlib.Core.Path.{subst}
use chimera_ape.Base.{
  ◌++◌, codes, ℕ, ◌≡◌, inl, inr, refl, sym, ◌∙◌, ◌⊎◌, Bool, true, false, ◌||◌, ◌==◌, ==_iff, Option,
  none, some, List, [], ◌∷◌, Bytes, arith, All, All-map, Bool-cases, Option-cases, if◌then◌else◌,
  if-cases,
}
use chimera_ape.Util.Strtol.{ℤ}
use chimera_ape.Supervisor.{
  Child, spawn, waited, Health, healthy, died, timed_out, Wait, reaped, Signal, term, kill, stop,
}
use chimera_ape.Organs.Lifecycle.{
  Organs, no_organs, Start, Launched, launch, client_of, llama, turbovec, qlever, stop_qlever,
  unless_started, stop_all, llama_after, turbovec_after, qlever_after,
}
use chimera_ape.Organs.Lifecycle.Supervised.{
  Call, call_llama, call_turbovec, call_qlever, call_stop_qlever, call_stop_all, call, stop-pid,
}

abbrev after_fork : Option ℕ → Health → List ℕ → List ℕ
after_fork none _ ps = ps
after_fork (some p) died ps = ps
after_fork (some p) _ ps = p ∷ ps

-- A server that has no client is started. A process that is found dead in the wait is reaped.
abbrev pub after_start : Option ℤ → Start → List ℕ → List ℕ
after_start (some port) w ps = ps
after_start none w ps = if w.opens then after_fork w.fork w.health ps else ps

-- Whether a process ends: `SIGKILL` ends it, and `SIGTERM` does if a poll finds that it has exited.
pub ends : Bool → List Signal → Bool
ends exits [] = false
ends exits (term ∷ sent) = exits || ends exits sent
ends exits (kill ∷ sent) = true

pub remove : ℕ → List ℕ → List ℕ
remove p [] = []
remove p (q ∷ ps) = let rest = remove p ps in if p == q then rest else q ∷ rest

abbrev pub after_signals : Option ℕ → Bool → List ℕ → List ℕ
after_signals none ended ps = ps
after_signals (some p) ended ps = if ended then remove p ps else ps

abbrev pub after_stop : List Wait → Child → List ℕ → List ℕ
after_stop waits c ps = after_signals c.pid (ends (reaped waits) (stop waits c).1) ps

module _ (db_dir : Bytes) where
  abbrev pub processes_after : Call → Organs → List ℕ → List ℕ
  processes_after (call_llama w) st ps = after_start st.llama_client w ps
  processes_after (call_turbovec w) st ps = after_start st.turbovec_client w ps
  processes_after (call_qlever index_exists w) st ps =
      if index_exists then after_start st.qlever_client w ps else ps
  processes_after (call_stop_qlever waits) st ps = after_stop waits st.qlever_child ps
  processes_after (call_stop_all a b c) st ps =
      after_stop c st.qlever_child (after_stop b st.turbovec_child (after_stop a st.llama_child ps))

  -- The processes that live after some calls.
  unfoldable pub processes : List Call → Organs → List ℕ → List ℕ
  unfolding remove ends stop call
  processes [] st ps = ps
  processes (c ∷ cs) st ps = processes cs (call db_dir c st) (processes_after c st ps)
