-- ===== src/Interp/Keeps/Loops.antt =====
-- What loops keep, and that a `while` loop ends: each test spends a step, so its rounds are fewer
-- than the steps left.
use net_lang.Prelude.{ℕ, zero, suc, ◌+◌, ◌≤◌, ◌<◌, String, Bool, true, false, some, [], ◌∷◌, arith}
use net_lang.Runtime.Value.{Value, Values, nil, cons}
use net_lang.Interp.State.{M, Context, State, Environment, Flow, Outcome, ◌>>=◌, resume}
use net_lang.Interp.Statement.{after_body, after_test, while_loop, run_while, for_loop, run_for}
use net_lang.Interp.Keeps.{
  Kept, Ready, Ready-Kept, Ends, Ends-after, ended, raised, died, Keeps, Any, Kept-refl, Kept-trans,
  Keeps-pure,
}
use net_lang.Interp.Keeps.Small.{Keeps-fail, Keeps-tick}
use net_lang.Interp.Keeps.Store.{Keeps-allocate}
use net_lang.Interp.Keeps.Evaluation.{◌thereafter◌}

-- As `Keeps`, where fewer than `b` steps are left.
record KeepsBelow {H A : Type 0} (b n : ℕ) (c : Context) (Q : A → Type 0) (m : M H A) : Type 0 where
  ends : (s : State H) → Ready n c s → s.remaining_steps < b → Ends 0 Q s (m c s).1 (m c s).0
  kept : (s : State H) → Ready n c s → s.remaining_steps < b → Kept c s (m c s).1

module _ {H : Type 0} {n : ℕ} {c : Context} where
  of_Keeps :
      {A : Type 0} {b : ℕ} {Q : A → Type 0} {m : M H A} → Keeps n c 0 Q m → KeepsBelow b n c Q m
  of_Keeps h = record { ends = λ s r _. h.ends s r; kept = λ s r _. h.kept s r }

  module _ {A B : Type 0} {k b b' : ℕ} {P : A → Type 0} {Q : B → Type 0} (enough : b ≤ b' + k) where
    Ends-resume :
        {s t : State H} {o : Outcome A} (f : A → M H B)
        → Ready n c t
        → s.remaining_steps < b
        → Ends k P s t o
        → ((a : A) → KeepsBelow b' n c Q (f a))
        → Ends 0 Q s (resume (o, t) f c).1 (resume (o, t) f c).0
    Ends-resume {t} f r below (ended {a} p e) rest =
        Ends-after (omega (arith, e)) ((rest a).ends t r (omega (arith, enough, below, e)))
    Ends-resume f r below raised rest = raised
    Ends-resume f r below died rest = died

    Kept-resume :
        {s t : State H} {o : Outcome A} (f : A → M H B)
        → Ready n c t
        → s.remaining_steps < b
        → Ends k P s t o
        → ((a : A) → KeepsBelow b' n c Q (f a))
        → Kept c t (resume (o, t) f c).1
    Kept-resume {t} f r below (ended {a} p e) rest =
        (rest a).kept t r (omega (arith, enough, below, e))
    Kept-resume {t} f r below raised rest = Kept-refl t
    Kept-resume {t} f r below died rest = Kept-refl t

    KeepsBelow-bind :
        {m : M H A} {f : A → M H B}
        → Keeps n c k P m
        → ((a : A) → KeepsBelow b' n c Q (f a))
        → KeepsBelow b n c Q (m >>= f)
    KeepsBelow-bind {m} {f} hm hf = record {
      ends = λ s r below. Ends-resume f (Ready-Kept r (hm.kept s r)) below (hm.ends s r) hf;
      kept = λ s r below.
          Kept-trans (hm.kept s r)
            (Kept-resume {s = s} f (Ready-Kept r (hm.kept s r)) below (hm.ends s r) hf);
    }

  after_body-below :
      (b : ℕ) {again : M H Flow}
      → KeepsBelow b n c Any again
      → (flow : Flow) → KeepsBelow b n c Any (after_body again flow)
  unfolding after_body
  after_body-below b h Flow.break = of_Keeps (Keeps-pure _ tt)
  after_body-below b h (Flow.return v) = of_Keeps (Keeps-pure _ tt)
  after_body-below b h Flow.normal = h
  after_body-below b h Flow.continue = h

  after_test-below :
      (b : ℕ) {round : M H Flow}
      → KeepsBelow b n c Any round
      → (go : Bool) → KeepsBelow b n c Any (after_test round go)
  unfolding after_test
  after_test-below b h true = h
  after_test-below b h false = of_Keeps (Keeps-pure _ tt)

  while_loop-below :
      (f : ℕ) (test : M H Bool) (body : M H Flow)
      → Keeps n c 1 Any test
      → Keeps n c 0 Any body
      → KeepsBelow f n c Any (while_loop f test body)
  unfolding while_loop
  while_loop-below zero test body ht hb = record {
    ends = λ s r below. absurd (omega (arith, below));
    kept = λ s r below. absurd (omega (arith, below));
  }
  while_loop-below (suc f) test body ht hb = KeepsBelow-bind {k = 1} {b' = f} (omega arith) ht (
      after_test-below f (
        KeepsBelow-bind {k = 0} {b' = f} (omega arith) hb
          (after_body-below f (while_loop-below f test body ht hb))))

  pub Keeps-run_while :
      (test : M H Bool) (body : M H Flow)
      → Keeps n c 1 Any test
      → Keeps n c 0 Any body
      → Keeps n c 0 Any (run_while test body)
  unfolding run_while
  Keeps-run_while test body ht hb = record {
    ends = λ s r. (while_loop-below (suc s.remaining_steps) test body ht hb).ends s r (omega arith);
    kept = λ s r. (while_loop-below (suc s.remaining_steps) test body ht hb).kept s r (omega arith);
  }

  Keeps-after_body :
      {again : M H Flow}
      → Keeps n c 0 Any again
      → (flow : Flow) → Keeps n c 0 Any (after_body again flow)
  unfolding after_body
  Keeps-after_body h Flow.break = Keeps-pure _ tt
  Keeps-after_body h (Flow.return v) = Keeps-pure _ tt
  Keeps-after_body h Flow.normal = h
  Keeps-after_body h Flow.continue = h

  pub Keeps-for_loop :
      (variable : String) (env : Environment) (body : Environment → M H Flow) (values : Values)
      → ((env : Environment) → Keeps n c 0 Any (body env))
      → Keeps n c 0 Any (for_loop variable env body values)
  unfolding for_loop
  Keeps-for_loop variable env body nil h = Keeps-pure _ tt
  Keeps-for_loop variable env body (cons value rest) h = Keeps-tick thereafter λ _.
      Keeps-allocate (some value) true thereafter λ id.
      h (((variable, id) ∷ []) ∷ env)
      thereafter Keeps-after_body (Keeps-for_loop variable env body rest h)

  pub Keeps-run_for :
      (variable : String) (env : Environment) (body : Environment → M H Flow) (v : Value)
      → ((env : Environment) → Keeps n c 0 Any (body env))
      → Keeps n c 0 Any (run_for variable env body v)
  unfolding run_for
  Keeps-run_for variable env body (Value.array values) h = Keeps-for_loop variable env body values h
  Keeps-run_for variable env body _ h = Keeps-fail _
