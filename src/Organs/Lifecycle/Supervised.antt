-- ===== src/Organs/Lifecycle/Supervised.antt =====
-- src/organs.cpp: sequences of calls of `Organs`.
use chimera_ape.Util.Strtol.{ℤ}
use chimera_ape.Base.{
  ℕ, ◌≡◌, inl, inr, refl, Bool, true, false, Option, none, some, List, [], ◌∷◌, Bytes, ◌++◌, codes,
  Option-cases, if-cases,
}
use chimera_ape.Supervisor.{Child, spawn, waited, Health, healthy, died, timed_out, Wait, stop}
use chimera_ape.Organs.Lifecycle.{
  Organs, no_organs, Start, Launched, launch, client_of, llama_after, turbovec_after, qlever_after,
  llama, turbovec, qlever, stop_qlever, stop_all, after_spawn, after_wait, unless_started,
}

-- A client is there only with the pid of a process.
abbrev pub IsBacked : Option ℤ → Child → Type 0
IsBacked none c = Unit
IsBacked (some port) c = (p : ℕ) × (c.pid ≡ some p)

pub record IsSupervised (st : Organs) : Type 0 where
  pub llama_backed : IsBacked st.llama_client st.llama_child
  pub turbovec_backed : IsBacked st.turbovec_client st.turbovec_child
  pub qlever_backed : IsBacked st.qlever_client st.qlever_child

-- The calls of the pipelines, in any order.
pub data Call : Type 0 where
  call_llama : Start → Call
  call_turbovec : Start → Call
  call_qlever : Bool → Start → Call
  call_stop_qlever : List Wait → Call
  call_stop_all : List Wait → List Wait → List Wait → Call

module _ (db_dir : Bytes) where
  unfoldable pub call : Call → Organs → Organs
  unfolding llama turbovec qlever stop_qlever stop_all
  call (call_llama w) = llama db_dir w
  call (call_turbovec w) = turbovec db_dir w
  call (call_qlever index_exists w) = qlever db_dir index_exists w
  call (call_stop_qlever waits) = stop_qlever db_dir waits
  call (call_stop_all a b c) = stop_all db_dir a b c

  unfoldable pub run_calls : List Call → Organs → Organs
  unfolding call
  run_calls [] st = st
  run_calls (c ∷ cs) st = run_calls cs (call c st)

  -- A success leaves a child with a process.
  IsGood : Child × Bool → Type 0
  IsGood (c, true) = (p : ℕ) × (c.pid ≡ some p)
  IsGood (c, false) = Unit

  spawn-IsGood :
      (opens : Bool) (fork : Option ℕ) (log_path : Bytes) (c : Child)
      → IsGood (spawn opens fork log_path c)
  unfolding spawn IsGood
  spawn-IsGood true none log_path c = tt
  spawn-IsGood true (some pid) log_path c = (pid, refl)
  spawn-IsGood false fork log_path c = tt

  waited-IsGood :
      (port : ℤ) (log : Option Bytes) (h : Health) (c : Child)
      → IsGood (c, true)
      → IsGood (waited port log h c)
  unfolding waited IsGood
  waited-IsGood port log healthy c good = good
  waited-IsGood port log died c good = tt
  waited-IsGood port log timed_out c good = tt

  abbrev IsLaunched : ℤ → Launched → Type 0
  IsLaunched port l = IsBacked (client_of port l) l.child

  after_wait-IsLaunched :
      (name : Bytes) (port : ℤ) (r : Child × Bool) → IsGood r → IsLaunched port (after_wait name r)
  unfolding IsGood
  after_wait-IsLaunched name port (c, true) good = good
  after_wait-IsLaunched name port (c, false) good = tt

  after_spawn-IsLaunched :
      (name : Bytes) (w : Start) (r : Child × Bool)
      → IsGood r
      → IsLaunched w.port (after_spawn name w r)
  after_spawn-IsLaunched name w (c, true) good =
      after_wait-IsLaunched name w.port (waited w.port w.log w.health c)
        (waited-IsGood w.port w.log w.health c good)
  after_spawn-IsLaunched name w (c, false) good = tt

  launch-IsLaunched :
      (name log_path : Bytes) (w : Start) (c : Child) → IsLaunched w.port (launch name log_path w c)
  unfolding launch
  launch-IsLaunched name log_path w c =
      after_spawn-IsLaunched name w (spawn w.opens w.fork log_path c)
        (spawn-IsGood w.opens w.fork log_path c)

  unless_started-IsSupervised :
      (client : Option ℤ) (st after : Organs)
      → IsSupervised st
      → IsSupervised after
      → IsSupervised (unless_started client st after)
  unless_started-IsSupervised none st after h h' = h'
  unless_started-IsSupervised (some port) st after h h' = h

  call-IsSupervised : (c : Call) (st : Organs) → IsSupervised st → IsSupervised (call c st)
  unfolding call llama turbovec qlever stop_qlever stop_all
  call-IsSupervised (call_llama w) st h =
      unless_started-IsSupervised st.llama_client st (llama_after db_dir w st) h (record {
        llama_backed =
            launch-IsLaunched (codes "llamafile") (db_dir ++ codes "/logs/llamafile.log") w
              st.llama_child;
        turbovec_backed = h.turbovec_backed;
        qlever_backed = h.qlever_backed;
      })
  call-IsSupervised (call_turbovec w) st h =
      unless_started-IsSupervised st.turbovec_client st (turbovec_after db_dir w st) h (record {
        llama_backed = h.llama_backed;
        turbovec_backed =
            launch-IsLaunched (codes "turbovec") (db_dir ++ codes "/logs/turbovec.log") w
              st.turbovec_child;
        qlever_backed = h.qlever_backed;
      })
  call-IsSupervised (call_qlever index_exists w) st h =
      unless_started-IsSupervised st.qlever_client st _ h (
        if-cases IsSupervised index_exists (qlever_after db_dir w st) _
          (λ e. record {
            llama_backed = h.llama_backed;
            turbovec_backed = h.turbovec_backed;
            qlever_backed =
                launch-IsLaunched (codes "qlever") (db_dir ++ codes "/logs/qlever-server.log") w
                  st.qlever_child;
          })
          (λ e. record {
            llama_backed = h.llama_backed;
            turbovec_backed = h.turbovec_backed;
            qlever_backed = h.qlever_backed;
          }))
  call-IsSupervised (call_stop_qlever waits) st h = record {
    llama_backed = h.llama_backed;
    turbovec_backed = h.turbovec_backed;
    qlever_backed = tt;
  }
  call-IsSupervised (call_stop_all a b c) st h = record {
    llama_backed = tt;
    turbovec_backed = tt;
    qlever_backed = tt;
  }

  run_calls-IsSupervised :
      (cs : List Call) (st : Organs) → IsSupervised st → IsSupervised (run_calls cs st)
  unfolding run_calls
  run_calls-IsSupervised [] st h = h
  run_calls-IsSupervised (c ∷ cs) st h =
      run_calls-IsSupervised cs (call c st) (call-IsSupervised c st h)

  -- No child has the pid of a process, and no client is left.
  abbrev pub IsDown : Organs → Type 0
  IsDown st =
      (st.llama_client ≡ none)
      × (st.turbovec_client ≡ none)
      × (st.qlever_client ≡ none)
      × (st.llama_child.pid ≡ none)
      × (st.turbovec_child.pid ≡ none)
      × (st.qlever_child.pid ≡ none)

  pub stop-pid : (waits : List Wait) (c : Child) → (stop waits c).0.pid ≡ none
  unfolding stop
  stop-pid waits c = elim (Option-cases c.pid) [
    | inl e ↦ rw (e, stop) e
    | inr (pid, e) ↦ rw (e, stop) refl
  ]

  -- After any sequence of starts and stops each client that is there has a child with a pid, and
  -- stopping everything then leaves neither clients nor pids.
  pub run_calls-IsDown :
      (cs : List Call) (a b c : List Wait)
      → IsSupervised (run_calls cs no_organs)
        × IsDown (stop_all db_dir a b c (run_calls cs no_organs))
  unfolding stop_all
  run_calls-IsDown cs a b c =
      let st = run_calls cs no_organs in
      (
        run_calls-IsSupervised cs no_organs
            (record { llama_backed = tt; turbovec_backed = tt; qlever_backed = tt }),
        (
          refl,
          refl,
          refl,
          stop-pid a st.llama_child,
          stop-pid b st.turbovec_child,
          stop-pid c st.qlever_child,
        ),
      )
