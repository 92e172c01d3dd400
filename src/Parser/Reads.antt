-- ===== src/Parser/Reads.antt =====
-- A program logic for the methods of src/parser: what a method does to the position and where
-- its errors are, on a token stream that ends with an EOF token.
pub mod Small
pub mod Loops
pub mod Streams
pub mod Primaries
pub mod Expressions
pub mod Statements
pub mod Programs
use net_lang.Prelude.{
  ℕ, zero, suc, ◌+◌, ◌-◌, ◌≤◌, ◌<◌, ◌≡◌, refl, ap, ◌∙◌, String, Bool, true, false, not, Option,
  none, some, List, [], ◌∷◌, length, get_elem?, arith, if◌then◌else◌, Bool-cases, inl, inr,
}
use net_lang.Source.{Position}
use net_lang.Lexer.Token.{TokenKind, Token, kind_eq, raw, token_span}
use net_lang.Parser.State.{
  P, Input, Cursor, Outcome, ok, err, ParseError, ◌>>=◌, go_on, pure, exhausted, spans_wanted,
  token_at, peek, previous, check, advance, advance_if, if_matches, error_at, error, consume,
  consume_if, start_of_next, end_of_previous, Round, again, done, next_round, loop, repeat,
  tokens_left,
}

-- A token that is no EOF is not the last.
abbrev pub IsClosed : List Token → Type 0
IsClosed tokens =
    (j : ℕ) (t : Token)
    → get_elem? tokens j ≡ some t
    → kind_eq t.kind TokenKind.eof ≡ false
    → suc j < length tokens

-- Where a method may run: from token `p` on, with at most `n` tokens to come.
pub record At (p n : ℕ) (i : Input) (s : Cursor) : Type 0 where
  pub from : p ≤ s.current
  pub inside : s.current < length i.tokens
  pub left : length i.tokens ≤ s.current + n
  pub closed : IsClosed i.tokens

-- The token is one of the stream.
abbrev pub IsIn : Input → Token → Type 0
IsIn i t = (j : ℕ) × (get_elem? i.tokens j ≡ some t)

-- The error carries the line, the column and the span of a token of the stream.
pub record Located (utf8 : String → List ℕ) (i : Input) (e : ParseError) : Type 0 where
  pub token : Token
  pub inside : IsIn i token
  pub line : e.line ≡ token.line
  pub column : e.column ≡ token.column
  pub span : e.span ≡ token_span utf8 token

-- A result, with a token taken where `spent` says so, or a syntax error at a token of the stream;
-- neither an index out of range nor a lack of fuel.
pub data Ends {A : Type 0} (utf8 : String → List ℕ) (i : Input) (spent : A → Bool) (s s' : Cursor)
    : Outcome A → Type 0 where
  ended : {a : A} → (spent a ≡ true → s.current < s'.current) → Ends utf8 i spent s s' (ok a)
  raised : {e : ParseError} → Located utf8 i e → Ends utf8 i spent s s' (err e)

-- The position does not go back and stays in the stream, and the mode is put back.
pub record Moved (i : Input) (s s' : Cursor) : Type 0 where
  pub forward : s.current ≤ s'.current
  pub inside : s'.current < length i.tokens
  pub mode : s'.constructors ≡ s.constructors

pub record Parses {A : Type 0} (utf8 : String → List ℕ) (i : Input) (p n : ℕ) (spent : A → Bool)
    (m : P A) : Type 0 where
  pub ends : (s : Cursor) → At p n i s → Ends utf8 i spent s (m i s).1 (m i s).0
  pub moved : (s : Cursor) → At p n i s → Moved i s (m i s).1

abbrev pub some_token : {A : Type 0} → A → Bool
some_token _ = true

abbrev pub any : {A : Type 0} → A → Bool
any _ = false

-- A round after which the loop goes on has taken a token.
abbrev pub progress : {S B : Type 0} → Round S B → Bool
progress (again _) = true
progress (done _) = false

pub Moved-refl : {p n : ℕ} {i : Input} {s : Cursor} → At p n i s → Moved i s s
Moved-refl h = record { forward = omega arith; inside = h.inside; mode = refl }

pub Moved-trans : {i : Input} {s t u : Cursor} → Moved i s t → Moved i t u → Moved i s u
Moved-trans g h = record {
  forward = omega (arith, g.forward, h.forward);
  inside = h.inside;
  mode = h.mode ∙ g.mode;
}

pub At-Moved : {p n : ℕ} {i : Input} {s t : Cursor} → At p n i s → Moved i s t → At p n i t
At-Moved h g = record {
  from = omega (arith, h.from, g.forward);
  inside = g.inside;
  left = omega (arith, h.left, g.forward);
  closed = h.closed;
}

pub At-spent :
    {p n : ℕ} {i : Input} {s t : Cursor}
    → At p (suc n) i s
    → Moved i s t
    → s.current < t.current
    → At 1 n i t
At-spent h g l = record {
  from = omega (arith, l);
  inside = g.inside;
  left = omega (arith, h.left, l);
  closed = h.closed;
}

-- What `Parses` says of one run.
abbrev pub Result :
    {A : Type 0} → (String → List ℕ) → Input → (A → Bool) → Cursor → Outcome A × Cursor → Type 0
Result utf8 i k s r = Ends utf8 i k s r.1 r.0 × Moved i s r.1

module _ {A : Type 0} {utf8 : String → List ℕ} {i : Input} where
  pub Parses-of :
      {p n : ℕ} {k : A → Bool} {m : P A}
      → ((s : Cursor) → At p n i s → Result utf8 i k s (m i s))
      → Parses utf8 i p n k m
  Parses-of f = record { ends = λ s at. (f s at).0; moved = λ s at. (f s at).1 }

  pub run :
      {p n : ℕ} {k : A → Bool} {m : P A}
      → Parses utf8 i p n k m
      → (s : Cursor) → At p n i s
      → Result utf8 i k s (m i s)
  run h s at = (h.ends s at, h.moved s at)

  pub Ends-after :
      {k l : A → Bool} {s t u : Cursor} {o : Outcome A}
      → s.current ≤ t.current
      → ((a : A) → k a ≡ true → l a ≡ true)
      → Ends utf8 i l t u o
      → Ends utf8 i k s u o
  Ends-after h f (ended g) = ended (λ e. omega (arith, h, g (f _ e)))
  Ends-after h f (raised l) = raised l

  pub Ends-spent :
      {k l : A → Bool} {s t u : Cursor} {o : Outcome A}
      → s.current < t.current
      → t.current ≤ u.current
      → Ends utf8 i l t u o
      → Ends utf8 i k s u o
  Ends-spent h g (ended _) = ended (λ _. omega (arith, h, g))
  Ends-spent h g (raised l) = raised l

  pub Parses-weaken :
      {p q n o : ℕ} {k l : A → Bool} {m : P A}
      → Parses utf8 i p n k m
      → p ≤ q
      → o ≤ n
      → ((a : A) → l a ≡ true → k a ≡ true)
      → Parses utf8 i q o l m
  Parses-weaken {p} {q} {n} {o} {m} h hp hn hk =
      let at : (s : Cursor) → At q o i s → At p n i s = λ s a. record {
        from = omega (arith, a.from);
        inside = a.inside;
        left = omega (arith, a.left);
        closed = a.closed;
      } in
      record {
        ends = λ s a. Ends-after {s = s} {t = s} (omega arith) hk (h.ends s (at s a));
        moved = λ s a. h.moved s (at s a);
      }

  pub Parses-pure : {p n : ℕ} {k : A → Bool} (a : A) → k a ≡ false → Parses utf8 i p n k (pure a)
  Parses-pure a h = record { ends = λ s at. ended (λ e. cc); moved = λ s at. Moved-refl at }

  pub Parses-exhausted : {p : ℕ} {k : A → Bool} → Parses utf8 i p 0 k (exhausted {A = A})
  Parses-exhausted = record {
    ends = λ s at. absurd (omega (arith, at.inside, at.left));
    moved = λ s at. Moved-refl at;
  }

module _ {A B : Type 0} {utf8 : String → List ℕ} {i : Input} {p n : ℕ} {k : B → Bool}
    {f : A → P B} where
  -- From the end of a method the rest is run, if there is a result.
  Ends-go_on :
      {j : A → Bool} {s t : Cursor} {o : Outcome A}
      → At p n i t
      → s.current ≤ t.current
      → Ends utf8 i j s t o
      → ((a : A) → o ≡ ok a → Parses utf8 i p n k (f a))
      → Ends utf8 i k s (go_on (o, t) f i).1 (go_on (o, t) f i).0
  Ends-go_on {t} at h (ended {a} _) g = Ends-after h (λ _ e. e) ((g a refl).ends t at)
  Ends-go_on at h (raised l) g = raised l

  Moved-go_on :
      {j : A → Bool} {s t : Cursor} {o : Outcome A}
      → At p n i t
      → Ends utf8 i j s t o
      → ((a : A) → o ≡ ok a → Parses utf8 i p n k (f a))
      → Moved i t (go_on (o, t) f i).1
  Moved-go_on {t} at (ended {a} _) g = (g a refl).moved t at
  Moved-go_on at (raised l) g = Moved-refl at

  -- The rest runs from no earlier position, with a result of the method.
  pub Parses-bind_at :
      {j : A → Bool} {m : P A}
      → Parses utf8 i p n j m
      → ((a : A) (s : Cursor) → (m i s).0 ≡ ok a → Parses utf8 i p n k (f a))
      → Parses utf8 i p n k (m >>= f)
  Parses-bind_at hm hf = record {
    ends = λ s at.
        let g = hm.moved s at in
        Ends-go_on (At-Moved at g) g.forward (hm.ends s at) (λ a e. hf a s e);
    moved = λ s at.
        let g = hm.moved s at in
        Moved-trans g (Moved-go_on (At-Moved at g) (hm.ends s at) (λ a e. hf a s e));
  }

  pub Parses-bind :
      {j : A → Bool} {m : P A}
      → Parses utf8 i p n j m
      → ((a : A) → Parses utf8 i p n k (f a))
      → Parses utf8 i p n k (m >>= f)
  Parses-bind hm hf = Parses-bind_at hm (λ a _ _. hf a)

module _ {A B : Type 0} {utf8 : String → List ℕ} {i : Input} {p n : ℕ} {j : A → Bool}
    {k l : B → Bool} {f : A → P B} where
  -- The rest after a token runs with one round less.
  Ends-go_on_spent :
      {s t : Cursor} {o : Outcome A}
      → At p (suc n) i s
      → Moved i s t
      → Ends utf8 i j s t o
      → ((a : A) → o ≡ ok a → j a ≡ true → Parses utf8 i 1 n l (f a))
      → ((a : A) → o ≡ ok a → j a ≡ false → Parses utf8 i p (suc n) k (f a))
      → Ends utf8 i k s (go_on (o, t) f i).1 (go_on (o, t) f i).0 × Moved i t (go_on (o, t) f i).1
  Ends-go_on_spent {t} at g (ended {a} e) hf ho = elim (Bool-cases (j a)) [
    | inl y ↦
        let at' = At-spent at g (e y) in
        let g' = (hf a refl y).moved t at' in
        (Ends-spent (e y) g'.forward ((hf a refl y).ends t at'), g')
    | inr n ↦
        let at' = At-Moved at g in
        (Ends-after g.forward (λ _ e. e) ((ho a refl n).ends t at'), (ho a refl n).moved t at')
  ]
  Ends-go_on_spent at g (raised l) hf ho = (raised l, Moved-refl (At-Moved at g))

  pub Parses-bind_or_at :
      {m : P A}
      → Parses utf8 i p (suc n) j m
      → ((a : A) (s : Cursor) → (m i s).0 ≡ ok a → j a ≡ true → Parses utf8 i 1 n l (f a))
      → ((a : A) (s : Cursor) → (m i s).0 ≡ ok a → j a ≡ false → Parses utf8 i p (suc n) k (f a))
      → Parses utf8 i p (suc n) k (m >>= f)
  Parses-bind_or_at hm hf ho =
      let both : (s : Cursor) → (at : At p (suc n) i s) → _ = λ s at.
        Ends-go_on_spent at (hm.moved s at) (hm.ends s at) (λ a e. hf a s e) (λ a e. ho a s e) in
      record {
        ends = λ s at. (both s at).0;
        moved = λ s at. Moved-trans (hm.moved s at) (both s at).1;
      }

  pub Parses-bind_or :
      {m : P A}
      → Parses utf8 i p (suc n) j m
      → ((a : A) → j a ≡ true → Parses utf8 i 1 n l (f a))
      → ((a : A) → j a ≡ false → Parses utf8 i p (suc n) k (f a))
      → Parses utf8 i p (suc n) k (m >>= f)
  Parses-bind_or hm hf ho = Parses-bind_or_at hm (λ a _ _. hf a) (λ a _ _. ho a)
