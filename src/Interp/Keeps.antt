-- ===== src/Interp/Keeps.antt =====
-- A program logic for the methods of src/interpreter: what every method keeps of the state, also
-- when it ends by an error.
pub mod Small
pub mod Steps
pub mod Store
pub mod Evaluation
pub mod Workers
pub mod Loops
pub mod Blocks
pub mod Runs
pub mod Calls
pub mod Programs
use net_lang.Prelude.{
  ℕ, zero, suc, ◌+◌, ◌≤◌, ◌<◌, ◌≡◌, refl, sym, ◌∙◌, subst, String, Bool, true, false, Option, none,
  some, List, length, get_elem?, arith,
}
use net_lang.Source.{Span}
use net_lang.Types.{ResolvedType}
use net_lang.Interp.State.{
  M, Context, State, Outcome, ok, err, panicked, out_of_fuel, ◌>>=◌, resume, pure, RuntimeError,
}

-- From `s` to `s'` no step is gained, the call stack, the location, the depth and the return
-- contract are put back, bindings are only added, and those captured by a worker stay as they are.
pub record Kept {H : Type 0} (c : Context) (s s' : State H) : Type 0 where
  pub steps : s'.remaining_steps ≤ s.remaining_steps
  pub stack : s'.call_stack ≡ s.call_stack
  pub span : s'.current_span ≡ s.current_span
  pub depth : s'.expression_depth ≡ s.expression_depth
  pub contract : s'.return_type ≡ s.return_type
  pub grows : length s.bindings ≤ length s'.bindings
  pub captures :
      (i : ℕ) → i < c.captured_bindings → get_elem? s'.bindings i ≡ get_elem? s.bindings i

-- Where a method may run with `n` more nested calls.
pub record Ready {H : Type 0} (n : ℕ) (c : Context) (s : State H) : Type 0 where
  pub room : c.limits.call_depth ≤ n + length s.call_stack
  pub boundary : c.captured_bindings ≤ length s.bindings

-- A result in `Q` costs `k` steps at least; fuel does not run out.
pub data Ends {H A : Type 0} (k : ℕ) (Q : A → Type 0) (s s' : State H) : Outcome A → Type 0 where
  ended : {a : A} → Q a → s'.remaining_steps + k ≤ s.remaining_steps → Ends k Q s s' (ok a)
  raised : {e : RuntimeError} → Ends k Q s s' (err e)
  died : Ends k Q s s' panicked

pub record Keeps {H A : Type 0} (n : ℕ) (c : Context) (k : ℕ) (Q : A → Type 0) (m : M H A)
    : Type 0 where
  pub ends : (s : State H) → Ready n c s → Ends k Q s (m c s).1 (m c s).0
  pub kept : (s : State H) → Ready n c s → Kept c s (m c s).1

abbrev pub Any : {A : Type 0} → A → Type 0
Any _ = Unit

module _ {H : Type 0} {c : Context} where
  pub Kept-refl : (s : State H) → Kept c s s
  Kept-refl s = record {
    steps = omega arith;
    stack = refl;
    span = refl;
    depth = refl;
    contract = refl;
    grows = omega arith;
    captures = λ i h. refl;
  }

  pub Kept-trans : {s t u : State H} → Kept c s t → Kept c t u → Kept c s u
  Kept-trans p q = record {
    steps = omega (arith, p.steps, q.steps);
    stack = q.stack ∙ p.stack;
    span = q.span ∙ p.span;
    depth = q.depth ∙ p.depth;
    contract = q.contract ∙ p.contract;
    grows = omega (arith, p.grows, q.grows);
    captures = λ i h. q.captures i h ∙ p.captures i h;
  }

  pub Ready-Kept : {n : ℕ} {s t : State H} → Ready n c s → Kept c s t → Ready n c t
  Ready-Kept r p = record {
    room = rw (p.stack) r.room;
    boundary = omega (arith, r.boundary, p.grows);
  }

module _ {H A : Type 0} {k : ℕ} {s t u : State H} where
  -- A cost is a cost from any earlier state, and may be given away.
  pub Ends-after :
      {Q : A → Type 0} {o : Outcome A}
      → t.remaining_steps + k ≤ s.remaining_steps
      → Ends 0 Q t u o
      → Ends k Q s u o
  Ends-after e (ended q h) = ended q (omega (arith, e, h))
  Ends-after e raised = raised
  Ends-after e died = died

module _ {H A : Type 0} {k : ℕ} {s t : State H} where
  pub Ends-map :
      {P Q : A → Type 0} {o : Outcome A} → ((a : A) → P a → Q a) → Ends k P s t o → Ends 0 Q s t o
  Ends-map f (ended p e) = ended (f _ p) (omega (arith, e))
  Ends-map f raised = raised
  Ends-map f died = died

module _ {H A : Type 0} {n : ℕ} {c : Context} where
  pub Keeps-pure : {Q : A → Type 0} (a : A) → Q a → Keeps n c 0 Q (pure {H = H} a)
  Keeps-pure a q = record { ends = λ s r. ended q (omega arith); kept = λ s r. Kept-refl s }

  pub Keeps-map :
      {k : ℕ} {P Q : A → Type 0} {m : M H A}
      → ((a : A) → P a → Q a)
      → Keeps n c k P m
      → Keeps n c 0 Q m
  Keeps-map f h = record { ends = λ s r. Ends-map f (h.ends s r); kept = h.kept }

module _ {H A B : Type 0} {n : ℕ} {c : Context} {k : ℕ} {P : A → Type 0} {Q : B → Type 0} where
  -- From the end of a method the rest is run, if there is one.
  Ends-resume :
      {s t : State H} {o : Outcome A} (f : A → M H B)
      → Ready n c t
      → Ends k P s t o
      → ((a : A) → P a → Keeps n c 0 Q (f a))
      → Ends k Q s (resume (o, t) f c).1 (resume (o, t) f c).0
  Ends-resume {t} f r (ended {a} p e) rest = Ends-after e ((rest a p).ends t r)
  Ends-resume f r raised rest = raised
  Ends-resume f r died rest = died

  Kept-resume :
      {s t : State H} {o : Outcome A} (f : A → M H B)
      → Ready n c t
      → Ends k P s t o
      → ((a : A) → P a → Keeps n c 0 Q (f a))
      → Kept c t (resume (o, t) f c).1
  Kept-resume {t} f r (ended {a} p e) rest = (rest a p).kept t r
  Kept-resume {t} f r raised rest = Kept-refl t
  Kept-resume {t} f r died rest = Kept-refl t

  pub Keeps-bind :
      {m : M H A} {f : A → M H B}
      → Keeps n c k P m
      → ((a : A) → P a → Keeps n c 0 Q (f a))
      → Keeps n c k Q (m >>= f)
  Keeps-bind {m} {f} hm hf = record {
    ends = λ s r. Ends-resume f (Ready-Kept r (hm.kept s r)) (hm.ends s r) hf;
    kept = λ s r.
        Kept-trans (hm.kept s r)
          (Kept-resume {s = s} f (Ready-Kept r (hm.kept s r)) (hm.ends s r) hf);
  }
