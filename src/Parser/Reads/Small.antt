-- ===== src/Parser/Reads/Small.antt =====
-- The small methods of src/parser/mod.rs in the program logic.
use net_lang.Prelude.{
  ℕ, zero, suc, ◌≤◌, ◌<◌, ◌≡◌, refl, String, Bool, true, false, not, some, List, [], ◌∷◌, length,
  get_elem?, arith, if◌then◌else◌, Bool-cases, inl, inr, ◌⊎◌, Option-cases,
}
use net_lang.Lexer.Token.{TokenKind, Token, kind_eq}
use net_lang.Parser.State.{
  P, Input, Cursor, ok, panicked, spans_wanted, token_at, peek, previous, check, advance,
  if_matches, error_at, error, consume, start_of_next, end_of_previous,
}
use net_lang.Lexer.Token.Kinds.{kind_eq→eq}
use net_lang.Parser.Reads.{
  At-spent, Ends-spent, Moved-trans, Parses-of, run, At, ended, raised, Moved, Moved-refl, Parses,
  IsIn, Parses-bind_at, some_token, any, Parses-bind, Parses-pure,
}

pub get_elem?-some :
    {A : Type 0} (xs : List A) (n : ℕ) → n < length xs → (x : A) × (get_elem? xs n ≡ some x)
get_elem?-some [] n h = absurd (omega arith)
get_elem?-some (x ∷ xs) zero h = (x, refl)
get_elem?-some (x ∷ xs) (suc n) h = get_elem?-some xs n (omega arith)

-- At a token that is there, `peek` returns it.
pub token_at-some :
    {t : Token} (j : ℕ) (i : Input) (s : Cursor)
    → get_elem? i.tokens j ≡ some t
    → token_at j i s ≡ (ok t, s)
unfolding token_at
token_at-some j i s e = rw (e, token_at)

pub peek_here :
    {p n : ℕ} {i : Input} {s : Cursor}
    → At p n i s
    → (t : Token) × (get_elem? i.tokens s.current ≡ some t) × (peek i s ≡ (ok t, s))
unfolding peek
peek_here {i} {s} at =
    let (t, e) = get_elem?-some i.tokens s.current at.inside in
    (t, e, token_at-some s.current i s e)

-- The tokens that the small methods return are of the stream.
pub token_at-IsIn :
    {t : Token} (j : ℕ) (i : Input) (s : Cursor) → (token_at j i s).0 ≡ ok t → IsIn i t
unfolding token_at
token_at-IsIn j i s h = elim (Option-cases (get_elem? i.tokens j)) [
  | inl e ↦ let g : (token_at j i s).0 ≡ panicked = rw (e, token_at) in absurd (cc (h, g))
  | inr (v, e) ↦ let g : (token_at j i s).0 ≡ ok v = rw (e, token_at) in (j, cc (h, g, e))
]

pub peek-IsIn : {t : Token} (i : Input) (s : Cursor) → (peek i s).0 ≡ ok t → IsIn i t
unfolding peek
peek-IsIn i s h = token_at-IsIn s.current i s h

before-IsIn :
    {t : Token} (c : ℕ) (mode : Bool) (i : Input)
    → (previous i (record { current = c; constructors = mode })).0 ≡ ok t
    → IsIn i t
unfolding previous
before-IsIn zero mode i h = absurd (cc)
before-IsIn (suc c) mode i h = token_at-IsIn c i (record { current = suc c; constructors = mode }) h

pub previous-IsIn : {t : Token} (i : Input) (s : Cursor) → (previous i s).0 ≡ ok t → IsIn i t
previous-IsIn i s h = before-IsIn s.current s.constructors i h

pub advance-IsIn : {t : Token} (i : Input) (s : Cursor) → (advance i s).0 ≡ ok t → IsIn i t
unfolding advance peek token_at
advance-IsIn i s h = elim (Option-cases (get_elem? i.tokens s.current)) [
  | inl e ↦ let g : (advance i s).0 ≡ panicked = rw (e, token_at) in absurd (cc (h, g))
  | inr (v, e) ↦
      let g : (advance i s).0 ≡ ok v = rw (token_at-some s.current i s e) in
      (s.current, cc (h, g, e))
]

module _ {utf8 : String → List ℕ} {i : Input} {p n : ℕ} where
  pub peek-Parses : {k : Token → Bool} → ((t : Token) → k t ≡ false) → Parses utf8 i p n k peek
  peek-Parses h = record {
    ends = λ s at. let (t, _, e) = peek_here at in rw e (ended (λ c. cc (h t)));
    moved = λ s at. let (t, _, e) = peek_here at in rw e (Moved-refl at);
  }

  pub spans_wanted-Parses : Parses utf8 i p n any spans_wanted
  spans_wanted-Parses = record { ends = λ s at. ended (λ e. cc); moved = λ s at. Moved-refl at }

  pub error_at-Parses :
      {A : Type 0} {k : A → Bool} (t : Token)
      → IsIn i t
      → (message : String) → Parses utf8 i p n k (error_at utf8 {A = A} t message)
  unfolding error_at
  error_at-Parses t h message = record {
    ends =
        λ s at. raised (record { token = t; inside = h; line = refl; column = refl; span = refl });
    moved = λ s at. Moved-refl at;
  }

  pub error-Parses :
      {A : Type 0} {k : A → Bool} (message : String)
      → Parses utf8 i p n k (error utf8 {A = A} message)
  unfolding error
  error-Parses message =
      Parses-bind_at (peek-Parses {k = any} (λ _. refl))
        λ t s e. error_at-Parses t (peek-IsIn i s e) message

  pub check-Parses : (kind : TokenKind) → Parses utf8 i p n any (check kind)
  unfolding check
  check-Parses kind = Parses-bind (peek-Parses {k = any} (λ _. refl)) λ t. Parses-pure _ refl

  pub start_of_next-Parses : Parses utf8 i p n any (start_of_next utf8)
  unfolding start_of_next
  start_of_next-Parses = Parses-bind (peek-Parses {k = any} (λ _. refl)) λ t. Parses-pure _ refl

abbrev pub next : Cursor → Cursor
next s = record s { current = suc s.current }

module _ {p n : ℕ} {i : Input} {s : Cursor} (at : At p n i s) where
  -- A token that is no EOF is passed.
  pub advance_here :
      (t : Token)
      → get_elem? i.tokens s.current ≡ some t
      → kind_eq t.kind TokenKind.eof ≡ false
      → (advance i s ≡ (ok t, next s)) × Moved i s (next s)
  unfolding advance peek
  advance_here t e h = (
    rw (token_at-some s.current i s e, h),
    record { forward = omega arith; inside = at.closed s.current t e h; mode = refl },
  )

  module _ (kind : TokenKind) (h : kind_eq kind TokenKind.eof ≡ false) where
    -- Whether the next token has the kind; if so, it can be passed.
    pub check_here :
        (t : Token) × (b : Bool) × (check kind i s ≡ (ok b, s))
        × (b ≡ true → (advance i s ≡ (ok t, next s)) × Moved i s (next s))
    unfolding check peek
    check_here =
        let (t, e) = get_elem?-some i.tokens s.current at.inside in
        (
          t,
          kind_eq t.kind kind,
          rw (token_at-some s.current i s e),
          λ c. advance_here t e (rw (kind_eq→eq t.kind kind c) h),
        )

    pub if_matches_cases :
        {A : Type 0} (taken other : P A)
        → (if_matches kind taken other i s ≡ taken i (next s)) × Moved i s (next s)
          ⊎ (if_matches kind taken other i s ≡ other i s)
    unfolding if_matches
    if_matches_cases taken other =
        let (t, b, e, g) = check_here in
        elim (Bool-cases b) [ inl y ↦ inl (rw (e, y, (g y).0), (g y).1) | inr n ↦ inr (rw (e, n)) ]

    pub consume_cases :
        (utf8 : String → List ℕ) (message : String)
        → ((t : Token) × (consume utf8 kind message i s ≡ (ok t, next s)) × Moved i s (next s))
          ⊎ (consume utf8 kind message i s ≡ error utf8 message i s)
    unfolding consume
    consume_cases utf8 message =
        let (t, b, e, g) = check_here in
        elim (Bool-cases b) [
          | inl y ↦ inl (t, rw (e, y, (g y).0), (g y).1)
          | inr n ↦ inr (rw (e, n))
        ]

module _ {utf8 : String → List ℕ} {i : Input} {p n : ℕ} (kind : TokenKind)
    (h : kind_eq kind TokenKind.eof ≡ false) where
  pub consume-Parses : (message : String) → Parses utf8 i p n some_token (consume utf8 kind message)
  consume-Parses message = Parses-of λ s at. elim (consume_cases at kind h utf8 message) [
    | inl (t, e, g) ↦ rw e (ended (λ _. omega arith), g)
    | inr e ↦ rw e (run {k = some_token} (error-Parses message) s at)
  ]

  -- The branch after the token has one round less, and has taken a token.
  pub if_matches-Parses :
      {A : Type 0} {k l : A → Bool} {taken other : P A}
      → Parses utf8 i 1 n l taken
      → Parses utf8 i p (suc n) k other
      → Parses utf8 i p (suc n) k (if_matches kind taken other)
  if_matches-Parses {taken} {other} ht ho = Parses-of λ s at.
      elim (if_matches_cases at kind h taken other) [
        | inl (e, g) ↦
            let at' = At-spent at g (omega arith) in
            let g' = ht.moved (next s) at' in
            rw e (Ends-spent (omega arith) g'.forward (ht.ends (next s) at'), Moved-trans g g')
        | inr e ↦ rw e (run ho s at)
      ]

previous_before :
    (i : Input) (mode : Bool) (c : ℕ)
    → 1 ≤ c
    → c < length i.tokens
    → let s : Cursor = record { current = c; constructors = mode } in
      (t : Token) × (previous i s ≡ (ok t, s))
unfolding previous
previous_before i mode zero h l = absurd (omega arith)
previous_before i mode (suc c) h l =
    let (t, e) = get_elem?-some i.tokens c (omega arith) in
    (t, token_at-some c i (record { current = suc c; constructors = mode }) e)

-- Whether the token is not the EOF token, which is not passed.
abbrev pub is_passed : Token → Bool
is_passed t = not (kind_eq t.kind TokenKind.eof)

module _ {utf8 : String → List ℕ} {i : Input} {p n : ℕ} where
  pub advance-Parses : Parses utf8 i p n is_passed advance
  unfolding advance peek
  advance-Parses = Parses-of λ s at.
      let (t, e) = get_elem?-some i.tokens s.current at.inside in
      elim (Bool-cases (kind_eq t.kind TokenKind.eof)) [
        | inl y ↦ rw (token_at-some s.current i s e, y) (ended (λ c. absurd (cc)), Moved-refl at)
        | inr h ↦
            let (r, g) = advance_here at t e h in
            rw (token_at-some s.current i s e, h) (ended (λ _. omega arith), g)
      ]

  -- There is a token before any but the first.
  pub previous-Parses : Parses utf8 i (suc p) n any previous
  previous-Parses = Parses-of λ s at.
      let (t, e) = previous_before i s.constructors s.current (omega (arith, at.from)) at.inside in
      rw e (ended (λ c. cc), Moved-refl at)

  pub end_of_previous-Parses : Parses utf8 i (suc p) n any (end_of_previous utf8)
  unfolding end_of_previous
  end_of_previous-Parses = Parses-bind previous-Parses λ t. Parses-pure _ refl

  pub Parses-if :
      {A : Type 0} {k : A → Bool} {x y : P A} (b : Bool)
      → Parses utf8 i p n k x
      → Parses utf8 i p n k y
      → Parses utf8 i p n k (if b then x else y)
  Parses-if true hx hy = hx
  Parses-if false hx hy = hy
