-- ===== src/Runtime/Transport/Effects.antt =====
-- What the operations of src/runtime/transport.rs do to the table of sockets.
use net_lang.Prelude.{
  ℕ, suc, ◌^◌, List, ◌≤◌, ◌<◌, ◌≡◌, refl, ◌∙◌, subst, String, Bool, true, false, Option, none, some,
  length, leb, ltb, leb→lt, ltb→lt, leb→le, Bool-cases, inl, inr, if◌then◌else◌,
}
use net_lang.Runtime.Value.{Value}
use net_lang.Runtime.Host.{Reply}
use net_lang.Runtime.Transport.{
  State, Outcome, ok, err, out_of_fuel, T, pure, fail, exhausted, ◌>>=◌, go_on, call, observe,
  ensure_capacity, insert, found, socket,
}
use net_lang.Runtime.Transport.Sockets.{Socket, find, put}

-- What an operation sees of the state besides the system: the sockets and the counter.
pub record Table (H : Type 0) : Type 0 where
  pub sockets : List (ℕ × Socket H)
  pub next_id : ℕ

abbrev pub table : {W H : Type 0} → State W H → Table H
table s = record { sockets = s.runtime.sockets; next_id = s.next_id }

-- The table with one socket more, under the next number.
abbrev pub opened_table : {H : Type 0} → Socket H → Table H → Table H
opened_table x t = record { sockets = put t.next_id x t.sockets; next_id = suc t.next_id }

-- A result goes with one socket more and the next number, the three of them related; without a result
-- nothing changes.
pub data Opened {H A : Type 0} (R : A → ℕ → Socket H → Type 0) (t : Table H)
    : Outcome A → Table H → Type 0 where
  opened :
      {a : A} (x : Socket H)
      → R a t.next_id x
      → suc t.next_id < 2 ^ 64
      → Opened R t (ok a) (opened_table x t)
  refused : {e : String} → Opened R t (err e) t
  starved : Opened R t out_of_fuel t

-- The table is left as it is.
pub record Keeps {W H A : Type 0} (m : T W H A) : Type 0 where
  pub same : (s : State W H) → (table (m s).1) ≡ (table s)

-- Below the limit, a socket is opened or nothing changes.
pub record Opens {W H A : Type 0} (R : A → ℕ → Socket H → Type 0) (m : T W H A) : Type 0 where
  pub effect : (s : State W H) → Opened R (table s) (m s).0 (table (m s).1)

module _ {W H A : Type 0} where
  pub Keeps-pure : (a : A) → Keeps (pure {W = W} {H = H} a)
  Keeps-pure a = record { same = λ s. refl }

  pub Keeps-fail : (e : String) → Keeps (fail {W = W} {H = H} {A = A} e)
  Keeps-fail e = record { same = λ s. refl }

  pub Keeps-exhausted : Keeps (exhausted {W = W} {H = H} {A = A})
  Keeps-exhausted = record { same = λ s. refl }

  pub Keeps-call : (e : String) (f : W → Reply A × W) → Keeps (call {W = W} {H = H} e f)
  unfolding call
  Keeps-call e f = record { same = λ s. refl }

  pub Keeps-observe : (f : W → A × W) → Keeps (observe {W = W} {H = H} f)
  unfolding observe
  Keeps-observe f = record { same = λ s. refl }

  pub Keeps-if : {x y : T W H A} (b : Bool) → Keeps x → Keeps y → Keeps (if b then x else y)
  Keeps-if true hx hy = hx
  Keeps-if false hx hy = hy

abbrev map_outcome : {A B : Type 0} → (A → B) → Outcome A → Outcome B
map_outcome f (ok a) = ok (f a)
map_outcome f (err e) = err e
map_outcome f out_of_fuel = out_of_fuel

Opened-map :
    {H A B : Type 0} {R : A → ℕ → Socket H → Type 0} {Q : B → ℕ → Socket H → Type 0} {t u : Table H}
    {o : Outcome A} (f : A → B)
    → ((a : A) (id : ℕ) (x : Socket H) → R a id x → Q (f a) id x)
    → Opened R t o u
    → Opened Q t (map_outcome f o) u
Opened-map {t} f g (opened {a} x r h) = opened x (g a t.next_id x r) h
Opened-map f g refused = refused
Opened-map f g starved = starved

module _ {W H A B : Type 0} where
  Keeps-go_on :
      {f : A → T W H B} (r : Outcome A × State W H)
      → ((a : A) → Keeps (f a))
      → (table (go_on r f).1) ≡ (table r.1)
  Keeps-go_on (ok a, t) h = (h a).same t
  Keeps-go_on (err e, t) h = refl
  Keeps-go_on (out_of_fuel, t) h = refl

  pub Keeps-bind :
      {m : T W H A} {f : A → T W H B} → Keeps m → ((a : A) → Keeps (f a)) → Keeps (m >>= f)
  Keeps-bind {m} hm hf = record { same = λ s. Keeps-go_on (m s) hf ∙ hm.same s }

  Opens-go_on :
      {R : B → ℕ → Socket H → Type 0} {f : A → T W H B} (t : Table H) (r : Outcome A × State W H)
      → (table r.1) ≡ t
      → ((a : A) → Opens R (f a))
      → Opened R t (go_on r f).0 (table (go_on r f).1)
  Opens-go_on {R} {f} t (ok a, u) e h =
      subst (λ v. Opened R v (f a u).0 (table (f a u).1)) e ((h a).effect u)
  Opens-go_on t (err m, u) e h = rw e refused
  Opens-go_on t (out_of_fuel, u) e h = rw e starved

  pub Opens-bind :
      {R : B → ℕ → Socket H → Type 0} {m : T W H A} {f : A → T W H B}
      → Keeps m
      → ((a : A) → Opens R (f a))
      → Opens R (m >>= f)
  Opens-bind {m} hm hf = record { effect = λ s. Opens-go_on (table s) (m s) (hm.same s) hf }

  go_on-pure :
      (f : A → B) (r : Outcome A × State W H) → go_on r (λ a. pure (f a)) ≡ (map_outcome f r.0, r.1)
  go_on-pure f (ok a, u) = refl
  go_on-pure f (err e, u) = refl
  go_on-pure f (out_of_fuel, u) = refl

  pub Opens-map :
      {R : A → ℕ → Socket H → Type 0} {Q : B → ℕ → Socket H → Type 0} {m : T W H A} (f : A → B)
      → ((a : A) (id : ℕ) (x : Socket H) → R a id x → Q (f a) id x)
      → Opens R m
      → Opens Q (m >>= λ a. pure (f a))
  Opens-map {m} f g h = record {
    effect = λ s. rw (go_on-pure f (m s)) (Opened-map f g (h.effect s));
  }

module _ {W H : Type 0} where
  pub insert-Opens :
      {R : Value → ℕ → Socket H → Type 0} (x : Socket H)
      → ((id : ℕ) → R (Value.connection id) id x)
      → Opens R (insert {W = W} x)
  unfolding insert
  insert-Opens x r = record {
    effect = λ s. elim (Bool-cases (ltb (suc s.next_id) (2 ^ 64))) [
      | inl y ↦ rw y (opened x (r s.next_id) (ltb→lt _ _ y))
      | inr n ↦ rw n refused
    ];
  }

  ensure_capacity-Keeps : Keeps (ensure_capacity {W = W} {H = H})
  unfolding ensure_capacity
  ensure_capacity-Keeps = record {
    same = λ s. elim (Bool-cases (leb 1024 (length s.runtime.sockets))) [
      | inl y ↦ rw y
      | inr n ↦ rw n
    ];
  }

  found-Keeps : (o : Option (Socket H)) → Keeps (found {W = W} o)
  found-Keeps (some x) = Keeps-pure x
  found-Keeps none = Keeps-fail _

  pub socket-Keeps : (v : Value) → Keeps (socket {W = W} {H = H} v)
  unfolding socket
  socket-Keeps (Value.connection id) = record {
    same = λ s. (found-Keeps (find id s.runtime.sockets)).same s;
  }
  socket-Keeps _ = record { same = λ s. refl }

-- What an operation that opens a socket does: at the limit of 1,024 sockets it is refused, and below
-- the limit a socket is opened or nothing changes.
pub data Admitted {H A : Type 0} (R : A → ℕ → Socket H → Type 0) (t : Table H)
    : Outcome A → Table H → Type 0 where
  admitted :
      {o : Outcome A} {u : Table H} → length t.sockets < 1024 → Opened R t o u → Admitted R t o u
  full : 1024 ≤ length t.sockets → Admitted R t (err "runtime connection limit (1024) reached") t

module _ {W H : Type 0} where
  pub below_limit :
      {R : Value → ℕ → Socket H → Type 0} {m : T W H Value}
      → Opens R m
      → (s : State W H)
      → Admitted R
          (table s)
          ((ensure_capacity >>= λ _. m) s).0
          (table ((ensure_capacity >>= λ _. m) s).1)
  unfolding ensure_capacity
  below_limit {m} h s = elim (Bool-cases (leb 1024 (length s.runtime.sockets))) [
    | inl y ↦ rw y (full (leb→le _ _ y))
    | inr n ↦ rw n (admitted (leb→lt _ _ n) (h.effect s))
  ]

-- What a method says of its result, if it has one.
abbrev pub Post : {A : Type 0} → (A → Type 0) → Outcome A → Type 0
Post Q (ok a) = Q a
Post Q (err _) = Unit
Post Q out_of_fuel = Unit

pub record Gives {W H A : Type 0} (Q : A → Type 0) (m : T W H A) : Type 0 where
  pub post : (s : State W H) → Post Q (m s).0

module _ {W H A : Type 0} where
  pub Gives-pure : {Q : A → Type 0} (a : A) → Q a → Gives Q (pure {W = W} {H = H} a)
  Gives-pure a q = record { post = λ s. q }

  Gives-go_on :
      {B : Type 0} {Q : B → Type 0} {f : A → T W H B} (r : Outcome A × State W H)
      → ((a : A) → Gives Q (f a))
      → Post Q (go_on r f).0
  Gives-go_on (ok a, t) h = (h a).post t
  Gives-go_on (err e, t) h = tt
  Gives-go_on (out_of_fuel, t) h = tt

  pub Gives-bind :
      {B : Type 0} {Q : B → Type 0} {m : T W H A} {f : A → T W H B}
      → Keeps m
      → ((a : A) → Gives Q (f a))
      → Gives Q (m >>= f)
  Gives-bind {m} k h = record { post = λ s. Gives-go_on (m s) h }
