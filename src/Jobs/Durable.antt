-- ===== src/Jobs/Durable.antt =====
-- Making the end of a run durable: what `finalize` may change, and that three attempts suffice.
use videocutlist.Prelude.{
  ℕ, zero, suc, Bool, true, false, Option, none, some, List, ◌≡◌, refl, ◌∙◌, subst, ap, arith,
  if◌then◌else◌, Bool-cases, inl, inr, Option-cases,
}
use videocutlist.Prelude.Text.{Text, text_eq, text_eq_iff}
use videocutlist.Prelude.Outcome.{ok, err}
use videocutlist.Jobs.Defs.{
  Job, JobState, running, succeeded, failed, cancelled, job_state, state_eq, is_terminal,
}
use videocutlist.Jobs.Table.{Rows, find, UniqueIds}
use videocutlist.Jobs.Store.{Result, get, moved, transition, cancel, succeed, fail, non_empty}
use videocutlist.Jobs.Transitions.{transition-cas}
use videocutlist.Jobs.Evolution.{
  Evolution, Evolution-refl, cancel-Evolution, succeed-Evolution, fail-Evolution,
}
use videocutlist.Jobs.Scheduler.{Cause, by_request, by_shutdown}
use videocutlist.Jobs.Finalize.{
  RunnerResult, finished, published, source_changed, other_error, Target, terminal_target, Fault,
  works, fails_before, fault_of, later, Attempt, read_loop, apply_terminal, persist_loop, confirm,
  finalize,
}

pub apply-Evolution :
    (id : Text) (t : Target) (now : Text) (rows : Rows)
    → Evolution rows (apply_terminal id t now rows).1
unfolding apply_terminal
apply-Evolution id t now rows = by_state t.state
  where
    by_state :
        (s : JobState)
        → Evolution rows
            (elim s as (λ _. Result) [
              | succeeded ↦ succeed id t.result now rows
              | failed ↦ fail id t.code now rows
              | cancelled ↦ cancel id now rows
              | _ ↦ (err job_state, rows)
            ]).1
    by_state succeeded = succeed-Evolution id rows t.result now
    by_state failed = fail-Evolution id rows t.code now
    by_state cancelled = cancel-Evolution id now rows
    by_state _ = Evolution-refl rows

-- The columns that a terminal write sets.
abbrev pub result_of : Target → Option Text
result_of t = elim t.state [ succeeded ↦ some t.result | _ ↦ none ]

abbrev pub code_of : Target → Option Text
code_of t = elim t.state [ failed ↦ non_empty t.code | _ ↦ none ]

abbrev pub write : Text → Target → Text → Rows → Rows
write id t now rows = (transition id running t.state (result_of t) (code_of t) now rows).1

abbrev pub written : Target → Text → Job → Job
written t now j = moved t.state (result_of t) (code_of t) now j

pub terminal_target-IsTerminal :
    (e : RunnerResult) (c : Option Cause) → is_terminal (terminal_target e c).state ≡ true
unfolding terminal_target
terminal_target-IsTerminal finished (some by_shutdown) = refl
terminal_target-IsTerminal finished (some by_request) = refl
terminal_target-IsTerminal (published r) (some c) = refl
terminal_target-IsTerminal source_changed (some by_shutdown) = refl
terminal_target-IsTerminal source_changed (some by_request) = refl
terminal_target-IsTerminal other_error (some by_shutdown) = refl
terminal_target-IsTerminal other_error (some by_request) = refl
terminal_target-IsTerminal finished none = refl
terminal_target-IsTerminal (published r) none = refl
terminal_target-IsTerminal source_changed none = refl
terminal_target-IsTerminal other_error none = refl

module _ (id : Text) (now : Text) (rows : Rows) {j : Job} (found : find id rows ≡ some j) where
  apply-transition :
      (t : Target)
      → is_terminal t.state ≡ true
      → j.state ≡ running
      → apply_terminal id t now rows
        ≡ transition id running t.state (result_of t) (code_of t) now rows
  unfolding apply_terminal succeed fail cancel
  apply-transition t end here = ground (arith, found)

  settled-err :
      (from to : JobState) (r c : Option Text)
      → UniqueIds rows
      → state_eq j.state from ≡ false
      → (transition id from to r c now rows).1 ≡ rows
  settled-err from to r c u other =
      let w = transition-cas id from to r c now rows u in
      w.2 job_state (w.0 ∙ ground (arith, found, other))

  apply_settled :
      (t : Target)
      → UniqueIds rows
      → is_terminal j.state ≡ true
      → ((apply_terminal id t now rows).1 ≡ rows)
  unfolding apply_terminal succeed fail cancel
  apply_settled t u end = ground (
    arith,
    found,
    settled-err running succeeded (some t.result) none u,
    settled-err running failed none (non_empty t.code) u,
  )

-- A write that has landed stays the last one.
persist_settled :
    (n : ℕ) (id : Text) (t : Target) (now : Text) (faults : List Fault) (rows : Rows) {j : Job}
    → find id rows ≡ some j
    → UniqueIds rows
    → is_terminal j.state ≡ true
    → (persist_loop n id t now faults rows).1.1 ≡ rows
unfolding persist_loop
persist_settled zero id t now faults rows found u end = refl
persist_settled (suc n) id t now faults rows found u end = ground (
  arith,
  apply_settled id now rows found t u end,
  persist_settled n id t now (later faults) rows found u end,
)

-- Some of the next `n` attempts changes the database.
abbrev pub lands : ℕ → List Fault → Bool
lands zero faults = false
lands (suc n) faults = elim (fault_of faults) [ fails_before ↦ lands n (later faults) | _ ↦ true ]

-- The faults left after the first of the next `n` attempts that works.
abbrev pub reads : ℕ → List Fault → Option (List Fault)
reads zero faults = none
reads (suc n) faults = elim (fault_of faults) [
  | works ↦ some (later faults)
  | _ ↦ reads n (later faults)
]

write-find :
    (id : Text) (t : Target) (now : Text) (rows : Rows) (j : Job)
    → find id rows ≡ some j
    → j.state ≡ running
    → UniqueIds rows
    → (k : Text)
    → find k (write id t now rows) ≡ (if text_eq k id then some (written t now j) else find k rows)
write-find id t now rows j found here u k =
    (transition-cas id running t.state (result_of t) (code_of t) now rows u).1 k
    ∙ elim (Bool-cases (text_eq k id)) [
      | inl same ↦ rw same (rw ((text_eq_iff k id).0 same) (ground (arith, found, here)))
      | inr other ↦ rw other
    ]

module _ (id : Text) (t : Target) (now : Text) (rows : Rows) (j : Job)
    (found : find id rows ≡ some j) (here : j.state ≡ running) (end : is_terminal t.state ≡ true)
    (u : UniqueIds rows) where
  written-found : find id (write id t now rows) ≡ some (written t now j)
  written-found = write-find id t now rows j found here u id ∙ ground (arith, text_eq_iff id id)

  written-terminal : is_terminal (written t now j).state ≡ true
  unfolding moved
  written-terminal = end

  written-settled :
      (n : ℕ) (faults : List Fault)
      → (persist_loop n id t now faults (write id t now rows)).1.1 ≡ write id t now rows
  written-settled n faults =
      persist_settled n id t now faults (write id t now rows) written-found
        ((apply-Evolution-write).unique u) written-terminal
    where
      apply-Evolution-write : Evolution rows (write id t now rows)
      apply-Evolution-write =
          subst (λ (r : Result). Evolution rows r.1) (apply-transition id now rows found t end here)
            (apply-Evolution id t now rows)

  -- Either no attempt lands, and the rows are as they were, or one does, and the write is there.
  persist_effect :
      (n : ℕ) (faults : List Fault)
      → (persist_loop n id t now faults rows).1.1
        ≡ (if lands n faults then write id t now rows else rows)
  unfolding persist_loop
  persist_effect zero faults = refl
  persist_effect (suc n) faults = ground (
    arith,
    apply-transition id now rows found t end here,
    written-settled n (later faults),
    persist_effect n (later faults),
  )

read_first_any :
    (id : Text) (rows : Rows) (j : Job)
    → find id rows ≡ some j
    → (n : ℕ) (faults : List Fault)
    → read_loop n id faults rows ≡ elim (reads n faults) [
      | none ↦ (none, (read_loop n id faults rows).1)
      | some rest ↦ (some (ok j), rest)
    ]
unfolding read_loop get
read_first_any id rows j found zero faults = refl
read_first_any id rows j found (suc n) faults =
    ground (arith, found, read_first_any id rows j found n (later faults))

confirm-rows : (id : Text) (w : Attempt Job × (List Fault × Rows)) → (confirm id w).1 ≡ w.1.1
confirm-rows id w = ground arith

-- The rows after `finalize` of a running job, for every run of faults.
after_faults : Text → Target → Text → Rows → Option (List Fault) → Rows
after_faults id t now rows none = rows
after_faults id t now rows (some rest) = if lands 3 rest then write id t now rows else rows

finalize-rows :
    (id : Text) (e : RunnerResult) (c : Option Cause) (now : Text) (faults : List Fault)
    (rows : Rows) (j : Job)
    → find id rows ≡ some j
    → j.state ≡ running
    → UniqueIds rows
    → (finalize id e c now faults rows).1
      ≡ after_faults id (terminal_target e c) now rows (reads 3 faults)
unfolding finalize after_faults
finalize-rows id e c now faults rows j found here u =
    let t = terminal_target e c in
    let end = terminal_target-IsTerminal e c in
    let r = read_first_any id rows j found 3 faults in
    elim (Option-cases (reads 3 faults)) [
      | inl q ↦ rw q (ground (arith, r, q))
      | inr (rest, q) ↦ rw q (
          ground (
            arith,
            r,
            q,
            here,
            confirm-rows id (persist_loop 3 id t now rest rows),
            persist_effect id t now rows j found here end u 3 rest,
          ))
    ]

finalize-write :
    (id : Text) (e : RunnerResult) (c : Option Cause) (now : Text) (faults rest : List Fault)
    (rows : Rows) (j : Job)
    → UniqueIds rows
    → find id rows ≡ some j
    → j.state ≡ running
    → reads 3 faults ≡ some rest
    → lands 3 rest ≡ true
    → (finalize id e c now faults rows).1 ≡ write id (terminal_target e c) now rows
unfolding after_faults
finalize-write id e c now faults rest rows j u found here r l =
    finalize-rows id e c now faults rows j found here u ∙ ground (arith, r, l)

-- The end of a run becomes durable: if one of three reads works and one of the three writes after it
-- reaches the database (even if that call then reports an error), the running job has the state,
-- result and error code of its target, and no other job has changed.
pub finalize_durable :
    (id : Text) (e : RunnerResult) (c : Option Cause) (now : Text) (faults rest : List Fault)
    (rows : Rows) (j : Job)
    → UniqueIds rows
    → find id rows ≡ some j
    → j.state ≡ running
    → reads 3 faults ≡ some rest
    → lands 3 rest ≡ true
    → (k : Text)
    → find k (finalize id e c now faults rows).1
      ≡ (if text_eq k id then some (written (terminal_target e c) now j) else find k rows)
finalize_durable id e c now faults rest rows j u found here r l k =
    ap (λ (x : Rows). find k x) (finalize-write id e c now faults rest rows j u found here r l)
    ∙ write-find id (terminal_target e c) now rows j found here u k
