-- ===== src/Manifest/Transaction.antt =====
-- src/manifest.cpp: the connection to SQLite. A transaction's writes are seen by the connection, and
-- are in the file once it is committed; what is open when the process ends is lost.
use chimera_ape.Base.{
  ℕ, zero, suc, ◌+◌, ◌≡◌, refl, Bool, true, false, ◌&&◌, Option, none, some, List, [], ◌∷◌, ◌++◌,
  map, arith, leb, if◌then◌else◌, Bytes, codes, take, take_nil, length, Result, ok, err,
}
use chimera_ape.Manifest.{Manifest, empty_manifest}
use chimera_ape.Manifest.Ops.Valid.{Write, run}

-- `stored` is what is in the file, `working` what an open transaction has made of it.
pub record Connection : Type 0 where
  pub stored : Manifest
  pub working : Option Manifest

abbrev pub connected : Manifest → Connection
connected m = record { stored = m; working = none }

-- `sqlite3_errmsg` or the message of `sqlite3_exec`, which may be a null pointer.
abbrev init_message : Option Bytes → Bytes
init_message none = codes "schema"
init_message (some e) = e

abbrev tables_of : Option Manifest → Manifest
tables_of none = empty_manifest
tables_of (some m) = m

-- The schema creates the tables that are not there.
unfoldable pub open_manifest :
    Bytes → Option Bytes → Option (Option Bytes) → Option Manifest → Result Connection
open_manifest db_path (some e) init_error tables =
    err (codes "open " ++ (db_path ++ (codes ": " ++ e)))
open_manifest db_path none (some e) tables = err (codes "manifest init: " ++ init_message e)
open_manifest db_path none none tables = ok (connected (tables_of tables))

-- `none` is an exception. `BEGIN IMMEDIATE` fails in a transaction, and where another connection has the lock.
unfoldable pub begin : Bool → Connection → Option Connection
begin free c = elim c.working [
  | none ↦ if free then some (record c { working = some c.stored }) else none
  | some m ↦ none
]

unfoldable pub commit : Bool → Connection → Option Connection
commit free c = elim c.working [ none ↦ none | some m ↦ if free then some (connected m) else none ]

-- The result of `ROLLBACK` is not looked at.
unfoldable pub rollback : Connection → Connection
rollback c = record c { working = none }

-- A statement outside a transaction is one by itself.
unfoldable pub write : Write → Connection → Connection
write w c = elim c.working [
  | none ↦ record c { stored = run w c.stored }
  | some m ↦ record c { working = some (run w m) }
]

-- What the next process finds, after `close` or a kill.
unfoldable pub close : Connection → Manifest
close c = c.stored

pub data Call : Type 0 where
  call_begin : Bool → Call
  call_write : Write → Call
  call_commit : Bool → Call
  call_rollback : Call

unfoldable pub call : Call → Connection → Option Connection
unfolding begin commit rollback write
call (call_begin free) c = begin free c
call (call_write w) c = some (write w c)
call (call_commit free) c = commit free c
call call_rollback c = some (rollback c)

-- The calls up to the first one that throws.
unfoldable pub run_calls : List Call → Connection → Connection
unfolding call
run_calls [] c = c
run_calls (x ∷ xs) c = elim (call x c) [ some c' ↦ run_calls xs c' | none ↦ c ]

abbrev pub run_writes : List Write → Manifest → Manifest
run_writes [] m = m
run_writes (w ∷ ws) m = run_writes ws (run w m)

-- Writes between `begin` and `commit`, which find the lock free or not.
abbrev pub transaction : Bool → Bool → List Write → List Call
transaction begins commits ws = call_begin begins ∷ (map call_write ws ++ call_commit commits ∷ [])

-- An open transaction that is cut off after `n` calls.
close-writes :
    (commits : Bool) (ws : List Write) (n : ℕ) (m working : Manifest)
    → close (
        run_calls
          (take n (map call_write ws ++ call_commit commits ∷ []))
          (record { stored = m; working = some working }))
      ≡ (if leb (length ws + 1) n && commits then run_writes ws working else m)
unfolding run_calls close
close-writes commits [] zero m working = ground arith
close-writes commits (w ∷ ws) zero m working = ground arith
close-writes commits [] (suc n) m working =
    let long : leb (length (map call_write []) + 1) (suc n) ≡ true = ground arith in
    rw (long, take_nil n) (last commits)
  where
    last :
        (b : Bool)
        → close (run_calls (call_commit b ∷ []) (record { stored = m; working = some working }))
          ≡ (if b then working else m)
    last true = refl
    last false = refl
close-writes commits (w ∷ ws) (suc n) m working =
    let shift : leb (length (w ∷ ws) + 1) (suc n) ≡ leb (length ws + 1) n = ground arith in
    rw shift (close-writes commits ws n m (run w working))

-- A transaction that is cut off after `n` calls leaves the file as it was, or with all its writes if
-- both locks were free and `commit` was among the calls.
pub close-transaction :
    (begins commits : Bool) (ws : List Write) (n : ℕ) (m : Manifest)
    → close (run_calls (take n (transaction begins commits ws)) (connected m))
      ≡ (if begins && (leb (length ws + 2) n && commits) then run_writes ws m else m)
unfolding run_calls close
close-transaction begins commits ws zero m = ground arith
close-transaction true commits ws (suc n) m =
    let shift : leb (length ws + 2) (suc n) ≡ leb (length ws + 1) n = ground arith in
    rw shift (close-writes commits ws n m m)
close-transaction false commits ws (suc n) m = refl
