-- ===== src/Organs/Lifecycle/Processes/Slots.antt =====
-- What starts and stops do to the processes of the children.
use mathlib.Core.Path.{subst}
use chimera_ape.Base.{
  ℕ, ◌≡◌, inl, inr, refl, sym, ◌⊎◌, Bool, true, false, ◌==◌, ==_iff, Option, none, some, List, [],
  ◌∷◌, Bytes, arith, All, All-map, Bool-cases, if-cases,
}
use chimera_ape.Util.Strtol.{ℤ}
use chimera_ape.Supervisor.{
  Child, spawn, waited, Health, healthy, died, timed_out, Wait, reaped, stop,
}
use chimera_ape.Organs.Lifecycle.{Organs, Start, launch, client_of}
use chimera_ape.Organs.Lifecycle.Supervised.{Call, call_llama, call_turbovec, call_qlever}
use chimera_ape.Organs.Lifecycle.Processes.{after_start, ends, remove, after_signals, after_stop}

-- A server without a client has no process.
abbrev pub IsIdle : Option ℤ → Child → Type 0
IsIdle none c = c.pid ≡ none
IsIdle (some port) c = Unit

-- What a start of an idle server does.
pub record IsStarted (ps ps' : List ℕ) (client : Option ℤ) (c : Child) : Type 0 where
  pub idle : IsIdle client c
  pub one_more : (ps' ≡ ps) ⊎ ((p : ℕ) × (ps' ≡ p ∷ ps) × (c.pid ≡ some p))

pub launch-IsStarted :
    (name log_path : Bytes) (port : ℤ) (opens : Bool) (fork : Option ℕ) (how : Health)
    (log : Option Bytes) (c : Child) (ps : List ℕ)
    → c.pid ≡ none
    → ¬ (how ≡ timed_out)
    → (let w : Start = record {
      port = port;
      opens = opens;
      fork = fork;
      health = how;
      log = log;
    } in
        let l = launch name log_path w c in
        IsStarted ps (after_start none w ps) (client_of port l) l.child)
unfolding launch spawn waited
launch-IsStarted name log_path port false fork how log c ps none_yet quiet = record {
  idle = none_yet;
  one_more = inl refl;
}
launch-IsStarted name log_path port true none how log c ps none_yet quiet = record {
  idle = none_yet;
  one_more = inl refl;
}
launch-IsStarted name log_path port true (some p) healthy log c ps none_yet quiet = record {
  idle = tt;
  one_more = inr (p, refl, refl);
}
launch-IsStarted name log_path port true (some p) died log c ps none_yet quiet = record {
  idle = refl;
  one_more = inl refl;
}
launch-IsStarted name log_path port true (some p) timed_out log c ps none_yet quiet =
    absurd (quiet refl)

-- `stop` ends the process of a child.
stop-ends :
    (waits : List Wait) (c : Child) (p : ℕ)
    → c.pid ≡ some p
    → ends (reaped waits) (stop waits c).1 ≡ true
unfolding stop ends
stop-ends waits c p e = elim (Bool-cases (reaped waits)) [
  | inl soon ↦ rw (e, stop, soon) refl
  | inr late ↦ rw (e, stop, late) refl
]

module _ (P Q : ℕ → Type 0) where
  remove-All :
      (p : ℕ) (ps : List ℕ)
      → ((q : ℕ) → P q → (some p ≡ some q) ⊎ Q q)
      → All P ps
      → All Q (remove p ps)
  unfolding remove
  remove-All p [] f h = tt
  remove-All p (q ∷ ps) f h =
      if-cases (All Q) (p == q) _ _ (λ _. remove-All p ps f h.1)
        (λ other. (
          elim (f q h.0) [
            | inl e ↦
                let same : p ≡ q = cc e in
                let is_same = (==_iff p q).1 same in absurd (ground (arith, other, is_same))
            | inr stays ↦ stays
          ],
          remove-All p ps f h.1,
        ))

  -- What is held by others than a child that is stopped.
  after_signals-All :
      (pid : Option ℕ) (ended : Bool) (ps : List ℕ)
      → ((p : ℕ) → pid ≡ some p → ended ≡ true)
      → ((p : ℕ) → P p → (pid ≡ some p) ⊎ Q p)
      → All P ps
      → All Q (after_signals pid ended ps)
  after_signals-All none ended ps all_end f h =
      All-map {P = P} ps h λ p held. elim (f p held) [ inl e ↦ absurd (cc e) | inr q ↦ q ]
  after_signals-All (some p) ended ps all_end f h = rw (all_end p refl) (remove-All p ps f h)

  pub after_stop-All :
      (waits : List Wait) (c : Child) (ps : List ℕ)
      → ((p : ℕ) → P p → (c.pid ≡ some p) ⊎ Q p)
      → All P ps
      → All Q (after_stop waits c ps)
  after_stop-All waits c ps f h =
      after_signals-All c.pid (ends (reaped waits) (stop waits c).1) ps (stop-ends waits c) f h

-- A child of `Organs` has the process.
abbrev pub Held : Organs → ℕ → Type 0
Held st p =
    (st.llama_child.pid ≡ some p)
    ⊎ (st.turbovec_child.pid ≡ some p)
    ⊎ (st.qlever_child.pid ≡ some p)

pub record IsKept (st : Organs) (ps : List ℕ) : Type 0 where
  pub llama_idle : IsIdle st.llama_client st.llama_child
  pub turbovec_idle : IsIdle st.turbovec_client st.turbovec_child
  pub qlever_idle : IsIdle st.qlever_client st.qlever_child
  pub held : All (Held st) ps

-- The wait of a start does not run out of time: the server answers, or its process ends.
abbrev pub IsTimely : Call → Type 0
IsTimely (call_llama w) = ¬ (w.health ≡ timed_out)
IsTimely (call_turbovec w) = ¬ (w.health ≡ timed_out)
IsTimely (call_qlever index_exists w) = ¬ (w.health ≡ timed_out)
IsTimely _ = Unit

pub Held-after_start :
    (st st' : Organs) (ps ps' : List ℕ) (client : Option ℤ) (c : Child)
    → IsStarted ps ps' client c
    → ((p : ℕ) → c.pid ≡ some p → Held st' p)
    → ((p : ℕ) → Held st p → Held st' p)
    → All (Held st) ps
    → All (Held st') ps'
Held-after_start st st' ps ps' client c s own others h =
    let kept = All-map {P = Held st} ps h others in
    elim s.one_more [
      | inl same ↦ subst (All (Held st')) (sym same) kept
      | inr (p, more, pid) ↦ subst (All (Held st')) (sym more) (own p pid, kept)
    ]
