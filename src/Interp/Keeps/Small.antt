-- ===== src/Interp/Keeps/Small.antt =====
-- What the small methods of src/interpreter/mod.rs keep.
use net_lang.Prelude.{
  ℕ, zero, suc, ◌+◌, ◌≡◌, refl, Bool, true, false, Option, leb, arith, if◌then◌else◌,
}
use net_lang.Source.{Span}
use net_lang.Runtime.Host
use net_lang.Runtime.Host.{Message, Result}
use net_lang.Interp.Port.{Port}
use net_lang.Interp.State.{
  M, Context, State, Outcome, panic, fail, lift, on_runtime, locate_error, locate, or_else,
  with_span, tick, counted, deeper, deeper_if,
}
use net_lang.Interp.Keeps.{
  Kept, Ready, Ends, Ends-after, ended, raised, died, Keeps, Any, Kept-refl, Keeps-pure, Keeps-bind,
}

module _ {H : Type 0} where
  locate-Ends :
      {A : Type 0} {k : ℕ} {Q : A → Type 0} {s t : State H} {o : Outcome A} (at : Option Span)
      → Ends k Q s t o
      → Ends k Q s t (locate at o)
  locate-Ends at (ended q e) = ended q e
  locate-Ends at raised = raised
  locate-Ends at died = died

  pub Ends-between :
      {A : Type 0} {k : ℕ} {Q : A → Type 0} {s s' t t' : State H} {o : Outcome A}
      → s'.remaining_steps ≡ s.remaining_steps
      → t'.remaining_steps ≡ t.remaining_steps
      → Ends k Q s t o
      → Ends k Q s' t' o
  Ends-between e f (ended q h) = ended q (omega (arith, e, f, h))
  Ends-between e f raised = raised
  Ends-between e f died = died

module _ {H : Type 0} {c : Context} where
  tick-steps : (s : State H) → Ends 1 Any s (tick c s).1 (tick c s).0 × Kept c s (tick c s).1
  unfolding tick fail
  tick-steps s = go s.remaining_steps refl
    where
      go :
          (k : ℕ)
          → s.remaining_steps ≡ k
          → Ends 1 Any s (tick c s).1 (tick c s).0 × Kept c s (tick c s).1
      go zero e = rw e (raised, Kept-refl _)
      go (suc k) e = rw e (
        ended tt (omega arith),
        record {
          steps = omega arith;
          stack = refl;
          span = refl;
          depth = refl;
          contract = refl;
          grows = omega arith;
          captures = λ i h. refl;
        },
      )

module _ {H : Type 0} {n : ℕ} {c : Context} where
  pub Keeps-fail :
      {A : Type 0} {k : ℕ} {Q : A → Type 0} (m : Message) → Keeps n c k Q (fail {H = H} m)
  unfolding fail
  Keeps-fail m = record { ends = λ s r. raised; kept = λ s r. Kept-refl s }

  pub Keeps-panic : {A : Type 0} {k : ℕ} {Q : A → Type 0} → Keeps n c k Q (panic {H = H})
  Keeps-panic = record { ends = λ s r. died; kept = λ s r. Kept-refl s }

  pub Keeps-lift : {A : Type 0} (r : Result A) → Keeps n c 0 Any (lift {H = H} r)
  unfolding lift
  Keeps-lift (Host.ok a) = Keeps-pure a tt
  Keeps-lift (Host.err m) = Keeps-fail m
  Keeps-lift Host.panicked = Keeps-panic

  -- A method that reads its context first.
  pub Keeps-reader :
      {A : Type 0} {k : ℕ} {Q : A → Type 0} (f : Context → M H A)
      → Keeps n c k Q (f c)
      → Keeps n c k Q (λ c'. f c' c')
  Keeps-reader f h = record { ends = h.ends; kept = h.kept }

  pub Keeps-on_runtime :
      {A : Type 0} (operation : Port H → Result A × Port H) → Keeps n c 0 Any (on_runtime operation)
  unfolding on_runtime
  Keeps-on_runtime operation = record {
    ends = λ s r. Ends-after (omega arith) (
        (Keeps-lift (operation s.runtime).0).ends (moved s)
          (record { room = r.room; boundary = r.boundary }));
    kept = λ s r.
        let h =
          (Keeps-lift (operation s.runtime).0).kept (moved s)
            (record { room = r.room; boundary = r.boundary }) in
        record {
          steps = h.steps;
          stack = h.stack;
          span = h.span;
          depth = h.depth;
          contract = h.contract;
          grows = h.grows;
          captures = h.captures;
        };
  }
    where
      moved : State H → State H
      moved s = record s { runtime = (operation s.runtime).1 }

  pub Keeps-locate_error :
      {A : Type 0} {k : ℕ} {Q : A → Type 0} {m : M H A} (at : Option Span)
      → Keeps n c k Q m
      → Keeps n c k Q (locate_error at m)
  unfolding locate_error
  Keeps-locate_error at h = record { ends = λ s r. locate-Ends at (h.ends s r); kept = h.kept }

  pub Keeps-with_span :
      {A : Type 0} {k : ℕ} {Q : A → Type 0} {m : M H A} (at : Option Span)
      → Keeps n c k Q m
      → Keeps n c k Q (with_span at m)
  unfolding with_span
  Keeps-with_span at h = record {
    ends = λ s r. Ends-between refl refl (h.ends (moved s) (ready s r));
    kept = λ s r.
        let k = h.kept (moved s) (ready s r) in
        record {
          steps = k.steps;
          stack = k.stack;
          span = refl;
          depth = k.depth;
          contract = k.contract;
          grows = k.grows;
          captures = k.captures;
        };
  }
    where
      moved : State H → State H
      moved s = record s { current_span = or_else at s.current_span }

      ready : (s : State H) → Ready n c s → Ready n c (moved s)
      ready s r = record { room = r.room; boundary = r.boundary }

  pub Keeps-tick : Keeps n c 1 Any (tick {H = H})
  Keeps-tick = record { ends = λ s r. (tick-steps s).0; kept = λ s r. (tick-steps s).1 }

  -- The depth is counted up for the run, and down again.
  Keeps-deeper :
      {A : Type 0} {Q : A → Type 0} {m : M H A} → Keeps n c 0 Q m → Keeps n c 0 Q (deeper m)
  unfolding deeper fail
  Keeps-deeper {A} {Q} {m} h = record {
    ends = λ s r. go_ends s r (leb c.limits.expression_depth s.expression_depth);
    kept = λ s r. go_kept s r (leb c.limits.expression_depth s.expression_depth);
  }
    where
      moved : State H → State H
      moved s = record s { expression_depth = s.expression_depth + 1 }

      ready : (s : State H) → Ready n c s → Ready n c (moved s)
      ready s r = record { room = r.room; boundary = r.boundary }

      go_ends :
          (s : State H)
          → Ready n c s
          → (b : Bool) → Ends 0 Q s (deeper_if b m c s).1 (deeper_if b m c s).0
      go_ends s r true = raised
      go_ends s r false = Ends-between refl refl (h.ends (moved s) (ready s r))

      go_kept : (s : State H) → Ready n c s → (b : Bool) → Kept c s (deeper_if b m c s).1
      go_kept s r true = Kept-refl s
      go_kept s r false =
          let k = h.kept (moved s) (ready s r) in
          record {
            steps = k.steps;
            stack = k.stack;
            span = k.span;
            depth = omega (arith, k.depth);
            contract = k.contract;
            grows = k.grows;
            captures = k.captures;
          }

  pub Keeps-counted :
      {A : Type 0} {Q : A → Type 0} {m : M H A} → Keeps n c 0 Q m → Keeps n c 1 Q (counted m)
  unfolding counted
  Keeps-counted h = Keeps-bind Keeps-tick (λ _ _. Keeps-deeper h)

  pub Keeps-if :
      {A : Type 0} {k : ℕ} {Q : A → Type 0} {x y : M H A} (b : Bool)
      → Keeps n c k Q x
      → Keeps n c k Q y
      → Keeps n c k Q (if b then x else y)
  Keeps-if true hx hy = hx
  Keeps-if false hx hy = hy
