-- ===== src/Supervisor.antt =====
-- src/supervisor.cpp: one supervised child process. What the system calls return is an argument;
-- `pid` is `none` for the code's -1.
pub mod Waiting
use mathlib.Core.Option
use chimera_ape.Base.{
  ℕ, zero, suc, ◌+◌, ◌-◌, ◌*◌, Bool, true, false, not, Option, none, some, List, [], ◌∷◌, ◌++◌, ltb,
  leb, ◌==◌, if◌then◌else◌, Bytes, codes, length, drop,
}
use chimera_ape.Util.Decimal.{decimal}
use chimera_ape.Util.Strtol.{ℤ, pos, negsuc}

pub record Child : Type 0 where
  pub pid : Option ℕ
  pub log_path : Bytes
  pub error : Bytes

abbrev pub no_child : Child
no_child = record { pid = none; log_path = []; error = [] }

-- `opens`: the log can be opened. `fork`: the new process, `none` for a failure. A process that the
-- child had before is overwritten, as in the code; Organs.Lifecycle.Processes still knows it.
unfoldable pub spawn : Bool → Option ℕ → Bytes → Child → Child × Bool
spawn opens fork log_path c =
    let logged = record c { log_path = log_path } in
    if opens
    then elim fork [
      | none ↦ (record logged { error = codes "fork failed" }, false)
      | some pid ↦ (record logged { pid = some pid }, true)
    ]
    else (record logged { error = codes "cannot open log " ++ log_path }, false)

-- What `waitpid` with `WNOHANG` finds.
pub data Wait : Type 0 where
  exited : Wait
  alive : Wait
  refused : Wait

abbrev pub has_exited : Wait → Bool
has_exited exited = true
has_exited _ = false

-- Whether the child runs; one that has ended is reaped.
unfoldable pub running : Wait → Child → Child × Bool
running w c = elim c.pid [
  | none ↦ (c, false)
  | some pid ↦ elim w [
    | exited ↦ (record c { pid = none }, false)
    | alive ↦ (c, true)
    | refused ↦ (c, false)
  ]
]

-- The last 4096 bytes of the log.
unfoldable pub log_tail : Option Bytes → Bytes
log_tail none = codes "(no log)"
log_tail (some log) = if ltb 4096 (length log) then drop (length log - 4096) log else log

-- One poll of the health endpoint that returns, with the time that it takes in milliseconds. The code
-- has a limit for each wait of the request but none for their number, so a poll need not return.
pub record Probe : Type 0 where
  pub wait : Wait
  pub status : Option ℤ
  pub took : ℕ

abbrev pub is_up : Option ℤ → Bool
is_up none = false
is_up (some (pos n)) = n == 200
is_up (some (negsuc n)) = false

pub data Health : Type 0 where
  healthy : Health
  died : Health
  timed_out : Health

abbrev doubled : ℕ → ℕ
doubled backoff = if leb (backoff * 2) 2000 then backoff * 2 else 2000

-- The loop from poll `i` on. `none` only if the fuel does not do.
unfoldable pub health_loop : (ℕ → Probe) → ℕ → ℕ → ℕ → ℕ → ℕ → Option Health
health_loop probes timeout zero i elapsed backoff = none
health_loop probes timeout (suc fuel) i elapsed backoff =
    let p = probes i in
    let later =
      health_loop probes timeout fuel (i + 1) (elapsed + p.took + backoff) (doubled backoff) in
    if ltb elapsed timeout
    then (if has_exited p.wait then some died else if is_up p.status then some healthy else later)
    else some timed_out

unfoldable pub wait_loop : (ℕ → Probe) → ℕ → Option Health
unfolding health_loop
wait_loop probes timeout = health_loop probes timeout (timeout + 1) 0 0 50

-- The `%d` of a port, which is -1 where `pick_port` fails.
abbrev pub port_text : ℤ → Bytes
port_text (pos n) = decimal n
port_text (negsuc n) = codes "-" ++ decimal (n + 1)

-- The child after the wait.
unfoldable pub waited : ℤ → Option Bytes → Health → Child → Child × Bool
unfolding log_tail decimal
waited port log healthy c = (c, true)
waited port log died c = (
  record c { pid = none; error = codes "child exited during startup; log tail:\n" ++ log_tail log },
  false,
)
waited port log timed_out c = (
  record c {
    error =
        codes "health check timed out on port "
        ++ port_text port
        ++ codes "; log tail:\n"
        ++ log_tail log;
  },
  false,
)

pub data Signal : Type 0 where
  term : Signal
  kill : Signal

abbrev pub reaped : List Wait → Bool
reaped [] = false
reaped (w ∷ ws) = if has_exited w then true else reaped ws

-- `waits`: what the polls within the grace time find.
unfoldable pub stop : List Wait → Child → Child × List Signal
stop waits c = elim c.pid [
  | none ↦ (c, [])
  | some pid ↦ (record c { pid = none }, if reaped waits then term ∷ [] else term ∷ kill ∷ [])
]

-- `~Child`: a child that still runs is stopped. `first` is what `running` finds.
unfoldable pub destroyed : Wait → List Wait → Child → Child × List Signal
unfolding running stop
destroyed first waits c =
    let (after, runs) = running first c in if runs then stop waits after else (after, [])

-- A free port, or -1: whether the socket opens and binds, and the port that the kernel gave it.
unfoldable pub pick_port : Bool → Bool → ℕ → ℤ
pick_port opens binds port =
    if not opens then negsuc 0 else if not binds then negsuc 0 else pos port
