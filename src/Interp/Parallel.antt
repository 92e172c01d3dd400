-- ===== src/Interp/Parallel.antt =====
-- Parallel loops: src/interpreter/parallel.rs. The workers of a batch run one after another, in the
-- order in which they are started: one of the schedules of the threads, and the only one where a
-- batch has one worker. Starting a thread does not fail. `body` is the loop's body, a method that
-- is run on the worker's own state and context.
use net_lang.Prelude.{
  Bool, false, ℕ, zero, suc, ◌+◌, String, true, Option, none, some, List, [], ◌∷◌, length, take,
  drop, if◌then◌else◌,
}
use net_lang.Runtime.Value.{Value, to_list}
use net_lang.Runtime.Host.{Message, Platform, Reply, of_reply}
use net_lang.Runtime.Host
use net_lang.Interp.Port.{Port, direct, worker, port_fork, port_print}
use net_lang.Interp.State.{
  M, Context, State, Environment, Flow, RuntimeError, Outcome, ok, err, panicked, out_of_fuel,
  ◌>>=◌, ◌>>◌, pure, panic, fail, error, on_runtime, tick, allocate,
}

-- `values.chunks(width)`; `f` is at least the number of values.
unfoldable pub chunks {ℓ} : {A : Type ℓ} → ℕ → ℕ → List A → List (List A)
chunks zero width xs = []
chunks (suc f) width [] = []
chunks (suc f) width (x ∷ xs) = take width (x ∷ xs) ∷ chunks f width (drop width (x ∷ xs))

-- A loop in a worker runs its own workers one at a time.
unfoldable pub batches_of : Context → List Value → List (List Value)
unfolding chunks
batches_of c values =
    chunks (length values) (if c.in_parallel_worker then 1 else c.limits.parallel_workers) values

pub record Job (H : Type 0) : Type 0 where
  pub index : ℕ
  pub value : Value
  pub host : H

pub record WorkerOutcome : Type 0 where
  pub output : List String
  pub result : Outcome (Unit {0})

abbrev pub number_error : ℕ → Outcome (Unit {0}) → Outcome (Unit {0})
number_error index (err e) =
    err (record e { message = Message.parallel_iteration (suc index) e.message })
number_error index other = other

-- A panic of a thread is an error of its parent; one in a nested loop unwinds.
abbrev pub join : Bool → RuntimeError → List String → Outcome (Unit {0}) → WorkerOutcome
join false error_ output panicked = record { output = []; result = err error_ }
join _ error_ output result = record { output = output; result = result }

module _ {H : Type 0} where
  abbrev pub output_of : Port H → List String
  output_of (direct _) = []
  output_of (worker _ output _ _) = output

  -- The snapshot is the parent's state and context at the loop's start.
  unfoldable pub worker_context : Context → State H → Context
  worker_context c parent = record c {
    captured_bindings = length parent.bindings;
    in_parallel_worker = true;
  }

  unfoldable pub worker_state : Context → State H → ℕ → H → State H
  worker_state c parent remaining h = record parent {
    return_type = none;
    runtime = worker h [] 0 c.limits.parallel_output_bytes;
    remaining_steps = remaining;
    expression_depth = 0;
  }

  -- A worker's body ends by falling through or by `continue`.
  unfoldable pub finish_iteration : Flow → M H (Unit {0})
  unfolding fail
  finish_iteration Flow.normal = pure tt
  finish_iteration Flow.continue = pure tt
  finish_iteration Flow.break = fail Message.parallel_break
  finish_iteration (Flow.return _) = fail Message.parallel_return

  -- The outcome, and the steps that are left for the others.
  unfoldable pub execute_worker :
      Context
      → State H
      → String
      → Environment
      → (Environment → M H Flow)
      → Job H
      → ℕ
      → WorkerOutcome × ℕ
  unfolding worker_context worker_state finish_iteration allocate
  execute_worker c parent variable env body job remaining =
      let iteration : M H (Unit {0}) = allocate (some job.value) true >>= λ id.
      body (((variable, id) ∷ []) ∷ env) >>= finish_iteration in
      let (r, s) = iteration (worker_context c parent) (worker_state c parent remaining job.host) in
      (
        record { output = output_of s.runtime; result = number_error job.index r },
        s.remaining_steps,
      )

  unfoldable pub run_jobs :
      Context
      → State H
      → String
      → Environment
      → (Environment → M H Flow)
      → List (Job H)
      → ℕ
      → List WorkerOutcome × ℕ
  unfolding execute_worker error
  run_jobs c parent variable env body [] remaining = ([], remaining)
  run_jobs c parent variable env body (job ∷ jobs) remaining =
      let (o, left) = execute_worker c parent variable env body job remaining in
      let (os, last) = run_jobs c parent variable env body jobs left in
      let at_panic = error (Message.parallel_panicked (suc job.index)) parent in
      (join c.in_parallel_worker at_panic o.output o.result ∷ os, last)

  module _ (platform : Platform H) where
    abbrev refusal : Reply (Unit {0}) → Option Message
    refusal (Host.ok _) = none
    refusal (Host.err text) = some (Message.host text)

    unfoldable pub print_line : String → M H (Option Message)
    print_line line =
        on_runtime λ p. let (r, p') = port_print platform line p in (Host.Result.ok (refusal r), p')

    -- Print a worker's lines; the first refusal ends them.
    unfoldable pub replay : List String → M H (Option RuntimeError)
    unfolding error
    replay [] = pure none
    replay (line ∷ lines) =
        let more = replay lines in
        print_line line >>= λ refused. elim refused [
          | none ↦ more
          | some message ↦ λ c s. (ok (some (error message s)), s)
        ]

    abbrev pub first {ℓ} : {A : Type ℓ} → Option A → Option A → Option A
    first (some a) b = some a
    first none b = b

    -- The first error so far, and how the next worker ended.
    unfoldable pub continue_with :
        Option RuntimeError
        → Outcome (Unit {0})
        → (Option RuntimeError → M H (Unit {0}))
        → M H (Unit {0})
    continue_with e (ok _) k = k e
    continue_with e (err error_) k = k (first e (some error_))
    continue_with e panicked k = panic
    continue_with e out_of_fuel k = λ c s. (out_of_fuel, s)

    -- Every outcome's output is printed, and the first error is kept.
    unfoldable pub deliver : Option RuntimeError → List WorkerOutcome → M H (Unit {0})
    unfolding replay continue_with
    deliver (some e) [] = λ c s. (err e, s)
    deliver none [] = pure tt
    deliver error_ (o ∷ os) = replay o.output >>= λ refused.
        continue_with (first error_ refused) o.result (λ e. deliver e os)

    -- One step and one fork for each value of a batch.
    unfoldable pub fork_jobs : ℕ → List Value → M H (List (Job H))
    unfolding tick on_runtime port_fork
    fork_jobs index [] = pure []
    fork_jobs index (value ∷ values) = do
      tick
      h ← on_runtime λ p. let (r, p') = port_fork platform p in (of_reply r, p')
      jobs ← fork_jobs (suc index) values
      pure (record { index = index; value = value; host = h } ∷ jobs)

    unfoldable pub run_batch :
        State H → String → Environment → (Environment → M H Flow) → List (Job H) → M H (Unit {0})
    unfolding run_jobs deliver
    run_batch parent variable env body jobs c s =
        let (outcomes, left) = run_jobs c parent variable env body jobs s.remaining_steps in
        deliver none outcomes c (record s { remaining_steps = left })

    unfoldable pub run_batches :
        State H
        → String
        → Environment
        → (Environment → M H Flow)
        → ℕ
        → List (List Value)
        → M H (Unit {0})
    unfolding fork_jobs run_batch
    run_batches parent variable env body index [] = pure tt
    run_batches parent variable env body index (batch ∷ batches) = do
      jobs ← fork_jobs index batch
      run_batch parent variable env body jobs
      run_batches parent variable env body (index + length batch) batches

    unfoldable pub parallel :
        String → Value → Environment → (Environment → M H Flow) → M H (Unit {0})
    unfolding run_batches batches_of fail
    parallel variable (Value.array values) env body c s =
        run_batches s variable env body 0 (batches_of c (to_list values)) c s
    parallel variable _ env body c s = fail Message.parallel_requires_array c s
