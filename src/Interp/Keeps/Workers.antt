-- ===== src/Interp/Keeps/Workers.antt =====
-- What a parallel loop keeps of its parent, whatever its workers do: src/interpreter/parallel.rs.
use net_lang.Prelude.{
  ℕ, suc, ◌+◌, ◌≤◌, ◌≢◌, refl, String, Bool, true, false, Option, none, some, List, [], ◌∷◌, length,
  arith,
}
use net_lang.Runtime.Value.{Value, to_list}
use net_lang.Runtime.Host.{Platform, Message}
use net_lang.Interp.State.{
  M, Context, State, Environment, Flow, RuntimeError, Outcome, fail, error, ok, err, panicked,
  out_of_fuel, ◌>>=◌, allocate,
}
use net_lang.Interp.Parallel.{
  Job, WorkerOutcome, worker_context, worker_state, finish_iteration, execute_worker, run_jobs,
  replay, deliver, print_line, continue_with, join, fork_jobs, run_batch, run_batches, batches_of,
  parallel, number_error,
}
use net_lang.Interp.Keeps.{
  Kept, Ready, Ends, Ends-after, ended, raised, died, Keeps, Any, Kept-refl, Kept-trans, Ready-Kept,
  Keeps-pure, Keeps-bind,
}
use net_lang.Interp.Keeps.Small.{Keeps-fail, Keeps-panic, Keeps-on_runtime, Keeps-tick}
use net_lang.Interp.Keeps.Store.{Keeps-allocate}
use net_lang.Interp.Keeps.Evaluation.{◌thereafter◌}

-- No outcome of a batch stands for fuel that ran out.
pub data AllSettled : List WorkerOutcome → Type 0 where
  nothing : AllSettled []
  settled :
      {o : WorkerOutcome} {os : List WorkerOutcome}
      → o.result ≢ out_of_fuel
      → AllSettled os
      → AllSettled (o ∷ os)

module _ {H A : Type 0} {k : ℕ} {Q : A → Type 0} {s t : State H} where
  pub Ends-ne : {o : Outcome A} → Ends k Q s t o → o ≢ out_of_fuel
  Ends-ne (ended q e) = cc
  Ends-ne raised = cc
  Ends-ne died = cc

number_error-ne :
    (i : ℕ) (o : Outcome (Unit {0})) → o ≢ out_of_fuel → number_error i o ≢ out_of_fuel
number_error-ne i (ok a) h = cc
number_error-ne i (err e) h = cc
number_error-ne i panicked h = cc
number_error-ne i out_of_fuel h = absurd (h refl)

join-ne :
    (nested : Bool) (e : RuntimeError) (output : List String) (r : Outcome (Unit {0}))
    → r ≢ out_of_fuel
    → (join nested e output r).result ≢ out_of_fuel
join-ne true e output r h = h
join-ne false e output panicked h = cc
join-ne false e output (ok a) h = h
join-ne false e output (err _) h = h
join-ne false e output out_of_fuel h = h

module _ {H : Type 0} {n : ℕ} where
  Keeps-finish_iteration :
      {c : Context} (flow : Flow) → Keeps n c 0 Any (finish_iteration {H = H} flow)
  unfolding finish_iteration
  Keeps-finish_iteration Flow.normal = Keeps-pure tt tt
  Keeps-finish_iteration Flow.continue = Keeps-pure tt tt
  Keeps-finish_iteration Flow.break = Keeps-fail _
  Keeps-finish_iteration (Flow.return _) = Keeps-fail _

  module _ (c : Context) (parent : State H) (variable : String) (env : Environment)
      (body : Environment → M H Flow)
      (bodies : (c : Context) (env : Environment) → Keeps n c 0 Any (body env))
      (ready : Ready n c parent) where
    worker-Ready :
        (remaining : ℕ) (h : H)
        → Ready n (worker_context c parent) (worker_state c parent remaining h)
    unfolding worker_context worker_state
    worker-Ready remaining h = record { room = ready.room; boundary = omega arith }

    iteration-Keeps :
        (job : Job H)
        → Keeps n (worker_context c parent) 0 Any (
            allocate (some job.value) true >>= λ id.
            body (((variable, id) ∷ []) ∷ env) >>= finish_iteration)
    iteration-Keeps job = Keeps-bind (Keeps-allocate (some job.value) true) λ id _.
        Keeps-bind (bodies _ (((variable, id) ∷ []) ∷ env)) λ flow _. Keeps-finish_iteration flow

    execute_worker-settled :
        (job : Job H) (remaining : ℕ)
        → ((execute_worker c parent variable env body job remaining).0.result ≢ out_of_fuel)
          × ((execute_worker c parent variable env body job remaining).1 ≤ remaining)
    unfolding execute_worker worker_state
    execute_worker-settled job remaining =
        let s = worker_state c parent remaining job.host in
        let r = worker-Ready remaining job.host in
        (
          number_error-ne job.index _ (Ends-ne ((iteration-Keeps job).ends s r)),
          ((iteration-Keeps job).kept s r).steps,
        )

    run_jobs-settled :
        (jobs : List (Job H)) (remaining : ℕ)
        → AllSettled (run_jobs c parent variable env body jobs remaining).0
          × ((run_jobs c parent variable env body jobs remaining).1 ≤ remaining)
    unfolding run_jobs
    run_jobs-settled [] remaining = (nothing, omega arith)
    run_jobs-settled (job ∷ jobs) remaining =
        let (o, left) = execute_worker c parent variable env body job remaining in
        let first = execute_worker-settled job remaining in
        let rest = run_jobs-settled jobs left in
        (
          settled (join-ne c.in_parallel_worker _ o.output o.result first.0) rest.0,
          omega (arith, first.1, rest.1),
        )

  module _ {c : Context} (platform : Platform H) where
    Keeps-print_line : (line : String) → Keeps n c 0 Any (print_line platform line)
    unfolding print_line
    Keeps-print_line line = Keeps-on_runtime _

    Keeps-replay : (lines : List String) → Keeps n c 0 Any (replay platform lines)
    unfolding replay
    Keeps-replay [] = Keeps-pure none tt
    Keeps-replay (line ∷ lines) = Keeps-bind (Keeps-print_line line) λ refused _.
        elim refused
          as (λ o. Keeps {H = H} {A = Option RuntimeError} n c 0 Any (elim o [
            | none ↦ replay platform lines
            | some message ↦ λ c s. (ok (some (error message s)), s)
          ])) [
            | none ↦ Keeps-replay lines
            | some message ↦ record {
              ends = λ s r. ended tt (omega arith);
              kept = λ s r. Kept-refl s;
            }
          ]

    Keeps-continue_with :
        (e : Option RuntimeError) (o : Outcome (Unit {0}))
        (k : Option RuntimeError → M H (Unit {0}))
        → o ≢ out_of_fuel
        → ((e : Option RuntimeError) → Keeps n c 0 Any (k e))
        → Keeps n c 0 Any (continue_with platform e o k)
    unfolding continue_with
    Keeps-continue_with e (ok _) k ne h = h e
    Keeps-continue_with e (err _) k ne h = h _
    Keeps-continue_with e panicked k ne h = Keeps-panic
    Keeps-continue_with e out_of_fuel k ne h = absurd (ne refl)

    Keeps-deliver :
        (error : Option RuntimeError) (os : List WorkerOutcome)
        → AllSettled os
        → Keeps n c 0 Any (deliver platform error os)
    unfolding deliver
    Keeps-deliver none [] h = Keeps-pure tt tt
    Keeps-deliver (some e) [] h = record { ends = λ s r. raised; kept = λ s r. Kept-refl s }
    Keeps-deliver none (o ∷ os) (settled ne rest) = Keeps-replay o.output thereafter λ refused.
        Keeps-continue_with _ o.result _ ne (λ e. Keeps-deliver e os rest)
    Keeps-deliver (some e) (o ∷ os) (settled ne rest) = Keeps-replay o.output thereafter λ refused.
        Keeps-continue_with _ o.result _ ne (λ e. Keeps-deliver e os rest)

    Keeps-fork_jobs :
        (index : ℕ) (values : List Value) → Keeps n c 0 Any (fork_jobs platform index values)
    unfolding fork_jobs
    Keeps-fork_jobs index [] = Keeps-pure _ tt
    Keeps-fork_jobs index (value ∷ values) = Keeps-tick thereafter λ _.
        Keeps-on_runtime _ thereafter λ h.
        Keeps-fork_jobs (suc index) values thereafter λ jobs. Keeps-pure _ tt

    -- The steps that the workers left.
    Keeps-run_batch :
        (parent : State H) (variable : String) (env : Environment) (body : Environment → M H Flow)
        (jobs : List (Job H))
        → ((c : Context) (env : Environment) → Keeps n c 0 Any (body env))
        → Ready n c parent
        → Keeps n c 0 Any (run_batch platform parent variable env body jobs)
    unfolding run_batch
    Keeps-run_batch parent variable env body jobs bodies ready = record {
      ends = λ s r.
          let h =
            Keeps-deliver none (run_jobs c parent variable env body jobs s.remaining_steps).0
              (workers s).0 in
          Ends-after (omega (arith, (workers s).1))
            (h.ends (spent s) (Ready-Kept r (spent_kept s)));
      kept = λ s r.
          let h =
            Keeps-deliver none (run_jobs c parent variable env body jobs s.remaining_steps).0
              (workers s).0 in
          Kept-trans (spent_kept s) (h.kept (spent s) (Ready-Kept r (spent_kept s)));
    }
      where
        workers :
            (s : State H)
            → AllSettled (run_jobs c parent variable env body jobs s.remaining_steps).0
              × ((run_jobs c parent variable env body jobs s.remaining_steps).1 ≤ s.remaining_steps)
        workers s = run_jobs-settled c parent variable env body bodies ready jobs s.remaining_steps

        spent : State H → State H
        spent s = record s {
          remaining_steps = (run_jobs c parent variable env body jobs s.remaining_steps).1;
        }

        spent_kept : (s : State H) → Kept c s (spent s)
        spent_kept s = record {
          steps = (workers s).1;
          stack = refl;
          span = refl;
          depth = refl;
          contract = refl;
          grows = omega arith;
          captures = λ i h. refl;
        }

    Keeps-run_batches :
        (parent : State H) (variable : String) (env : Environment) (body : Environment → M H Flow)
        (index : ℕ) (batches : List (List Value))
        → ((c : Context) (env : Environment) → Keeps n c 0 Any (body env))
        → Ready n c parent
        → Keeps n c 0 Any (run_batches platform parent variable env body index batches)
    unfolding run_batches
    Keeps-run_batches parent variable env body index [] bodies ready = Keeps-pure tt tt
    Keeps-run_batches parent variable env body index (batch ∷ batches) bodies ready =
        Keeps-fork_jobs index batch thereafter λ jobs.
        Keeps-run_batch parent variable env body jobs bodies ready thereafter λ _.
        Keeps-run_batches parent variable env body (index + length batch) batches bodies ready

    pub Keeps-parallel :
        (variable : String) (values : Value) (env : Environment) (body : Environment → M H Flow)
        → ((c : Context) (env : Environment) → Keeps n c 0 Any (body env))
        → Keeps n c 0 Any (parallel platform variable values env body)
    unfolding parallel
    Keeps-parallel variable (Value.array values) env body bodies = record {
      ends = λ s r.
          (Keeps-run_batches s variable env body 0 (batches_of c (to_list values)) bodies r).ends s
            r;
      kept = λ s r.
          (Keeps-run_batches s variable env body 0 (batches_of c (to_list values)) bodies r).kept s
            r;
    }
    Keeps-parallel variable _ env body bodies = record {
      ends = (refused).ends;
      kept = (refused).kept;
    }
      where
        refused : Keeps {H = H} {A = Unit {0}} n c 0 Any (fail Message.parallel_requires_array)
        refused = Keeps-fail _
