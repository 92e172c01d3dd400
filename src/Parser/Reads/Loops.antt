-- ===== src/Parser/Reads/Loops.antt =====
-- The loops of src/parser in the program logic: a loop whose rounds take a token ends, and the
-- lists between delimiters are such loops.
use net_lang.Prelude.{ℕ, zero, suc, ◌+◌, ◌≤◌, ◌≡◌, refl, Bool, false, String, List, length, arith}
use net_lang.Lexer.Token.{TokenKind, kind_eq, raw}
use net_lang.Parser.State.{
  P, Input, Cursor, Outcome, if_matches, go_on, Round, again, done, next_round, loop, repeat,
}
use net_lang.Parser.Primary.{with_constructors, next_item, items}
use net_lang.Parser.Reads.{
  At, Ends, ended, raised, Moved, Moved-trans, At-Moved, Ends-after, Result, Parses, Parses-of, run,
  any, progress, Parses-pure, Parses-bind, Parses-weaken,
}
use net_lang.Parser.Reads.Small.{check-Parses, if_matches-Parses, Parses-if}

module _ {utf8 : String → List ℕ} {i : Input} {S B : Type 0} {p n : ℕ} where
  -- One round, given the rounds after it.
  next_round-Result :
      (f : ℕ) {s t : Cursor} {o : Outcome (Round S B)} (rest : S → P B)
      → At p n i s
      → length i.tokens ≤ s.current + suc f
      → Moved i s t
      → Ends utf8 i progress s t o
      → ((a : S) → At p n i t → length i.tokens ≤ t.current + f → Result utf8 i any t (rest a i t))
      → Result utf8 i any s (go_on (o, t) (next_round rest) i)
  next_round-Result f rest at h g (ended {a = again a} e) r =
      let (e', g') = r a (At-Moved at g) (omega (arith, e refl)) in
      (Ends-after g.forward (λ _ c. c) e', Moved-trans g g')
  next_round-Result f rest at h g (ended {a = done b} e) r = (ended (λ c. cc), g)
  next_round-Result f rest at h g (raised l) r = (raised l, g)

  loop-Result :
      (body : S → P (Round S B))
      → ((a : S) → Parses utf8 i p n progress (body a))
      → (f : ℕ) (a : S) (s : Cursor) → At p n i s
      → length i.tokens ≤ s.current + f
      → Result utf8 i any s (loop f body a i s)
  unfolding loop
  loop-Result body hb zero a s at h = absurd (omega (arith, at.inside))
  loop-Result body hb (suc f) a s at h =
      let (e, g) = run (hb a) s at in
      next_round-Result f {s = s} (loop f body) at h g e
        (λ b at' h'. loop-Result body hb f b (body a i s).1 at' h')

  -- The fuel of a loop is enough.
  pub repeat-Parses :
      (body : S → P (Round S B)) (a : S)
      → ((a : S) → Parses utf8 i p n progress (body a))
      → Parses utf8 i p n any (repeat body a)
  unfolding repeat
  repeat-Parses body a hb =
      Parses-of λ s at. loop-Result body hb _ a s at (omega (arith, at.inside))

module _ {utf8 : String → List ℕ} {i : Input} {A : Type 0} {k : A → Bool} {s t : Cursor} where
  Ends-mode :
      {o : Outcome A} (b c : Bool)
      → Ends utf8 i k (record s { constructors = b }) t o
      → Ends utf8 i k s (record t { constructors = c }) o
  Ends-mode b c (ended h) = ended h
  Ends-mode b c (raised l) = raised l

module _ {utf8 : String → List ℕ} {i : Input} {p n : ℕ} {A : Type 0} where
  -- The mode of the caller is put back.
  pub with_constructors-Parses :
      {k : A → Bool} {m : P A} (b : Bool)
      → Parses utf8 i p n k m
      → Parses utf8 i p n k (with_constructors b m)
  unfolding with_constructors
  with_constructors-Parses {m} b h = Parses-of λ s at.
      let s' : Cursor = record s { constructors = b } in
      let at' : At p n i s' = record {
        from = at.from;
        inside = at.inside;
        left = at.left;
        closed = at.closed;
      } in
      let (e, g) = run h s' at' in
      (Ends-mode b s.constructors e, record { forward = g.forward; inside = g.inside; mode = refl })

-- A branch that takes a token, where one has been taken before.
pub Parses-matches :
    {utf8 : String → List ℕ} {i : Input} {A : Type 0} {n : ℕ} {k : A → Bool} {taken other : P A}
    (kind : TokenKind)
    → kind_eq kind TokenKind.eof ≡ false
    → Parses utf8 i 1 n any taken
    → Parses utf8 i 1 n k other
    → Parses utf8 i 1 n k (if_matches kind taken other)
Parses-matches {n = zero} kind h ht ho =
    Parses-of λ s at. absurd (omega (arith, at.inside, at.left))
Parses-matches {n = suc n} kind h ht ho =
    if_matches-Parses kind h (Parses-weaken ht (omega arith) (omega arith) (λ _ c. c)) ho

module _ {utf8 : String → List ℕ} {i : Input} {n : ℕ} {A : Type 0} (closing : TokenKind) where
  pub next_item-Parses : (xs : List A) → Parses utf8 i 1 n progress (next_item closing xs)
  unfolding next_item kind_eq raw
  next_item-Parses xs =
      Parses-matches TokenKind.comma refl
        (Parses-bind (check-Parses closing)
          λ closed. Parses-if closed (Parses-pure _ refl) (Parses-pure _ refl))
        (Parses-pure _ refl)

  pub items-Parses :
      {round : List A → P (Round (List A) (List A))}
      → ((xs : List A) → Parses utf8 i 1 n progress (round xs))
      → Parses utf8 i 1 n any (items closing round)
  unfolding items
  items-Parses h =
      Parses-bind (check-Parses closing)
        λ closed. Parses-if closed (Parses-pure _ refl) (repeat-Parses _ _ h)
