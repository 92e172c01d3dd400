-- ===== src/Runtime/Builtin/Bytes.antt =====
-- The built-in `bytes`: the conversion of an array in src/runtime/builtin.rs.
use net_lang.Prelude.{ℕ, ◌<◌, ◌≡◌, refl, subst, List, [], ◌∷◌, ltb, ltb→lt, Bool-cases, inl, inr}
use net_lang.Prelude.Int.{pos}
use net_lang.Runtime.Value.{Value, Values, nil, cons}
use net_lang.Runtime.Host.{Result, ok, err, panicked, ◌>>=◌}
use net_lang.Runtime.Builtin.{to_bytes}

-- The integers of a byte vector, as an array.
unfoldable pub of_bytes : List ℕ → Values
of_bytes [] = nil
of_bytes (b ∷ bytes) = cons (Value.integer (pos b)) (of_bytes bytes)

pub data AllBytes : List ℕ → Type 0 where
  none : AllBytes []
  more : {b : ℕ} {bytes : List ℕ} → b < 256 → AllBytes bytes → AllBytes (b ∷ bytes)

-- Where an array becomes a byte vector, every byte is below 256 and the vector has exactly the
-- array's integers in their order.
pub to_bytes-AllBytes :
    (values : Values) (bytes : List ℕ)
    → to_bytes values ≡ ok bytes
    → AllBytes bytes × (of_bytes bytes ≡ values)
unfolding to_bytes of_bytes
to_bytes-AllBytes nil bytes h =
    let e : [] ≡ bytes = cc h in subst (λ bs. AllBytes bs × (of_bytes bs ≡ nil)) e (none, refl)
to_bytes-AllBytes (cons (Value.integer (pos n)) rest) bytes h = elim (Bool-cases (ltb n 256)) [
  | inl small ↦
      go (to_bytes rest) refl (ltb→lt n 256 small) (λ bs e. to_bytes-AllBytes rest bs e)
        (cc (h, small))
  | inr large ↦ absurd (cc (h, large))
]
  where
    go :
        (r : Result (List ℕ))
        → to_bytes rest ≡ r
        → n < 256
        → ((bs : List ℕ) → to_bytes rest ≡ ok bs → AllBytes bs × (of_bytes bs ≡ rest))
        → (r >>= λ bs. ok (n ∷ bs)) ≡ ok bytes
        → AllBytes bytes × (of_bytes bytes ≡ cons (Value.integer (pos n)) rest)
    go (ok bs) e small ih f =
        let (all, same) = ih bs e in
        let at : n ∷ bs ≡ bytes = cc f in
        subst (λ cs. AllBytes cs × (of_bytes cs ≡ cons (Value.integer (pos n)) rest)) at
          (more small all, cc same)
    go (err m) e small ih f = absurd (cc f)
    go panicked e small ih f = absurd (cc f)
to_bytes-AllBytes (cons _ rest) bytes h = absurd (cc h)
