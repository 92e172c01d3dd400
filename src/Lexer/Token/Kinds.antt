-- ===== src/Lexer/Token/Kinds.antt =====
-- The numbers of the token kinds: `from_raw` of src/lexer/token.rs.
use net_lang.Prelude.{
  ℕ, zero, suc, ◌≡◌, ◌↔◌, refl, ap, ◌+◌, arith, true, some, List, [], ◌∷◌, ==_iff, get_elem?,
}
use net_lang.Prelude.Int.{ℤ, pos, negsuc}
use net_lang.Lexer.Token.{TokenKind, raw, kind_eq, kinds, from_raw}

-- The kind at each number is the one that has the number.
from_raw-raw : (k : TokenKind) → from_raw (pos (raw k)) ≡ some k
unfolding from_raw raw kinds
from_raw-raw TokenKind.eof = refl
from_raw-raw _ = refl

pub raw-inj : (a b : TokenKind) → raw a ≡ raw b → a ≡ b
raw-inj a b e = cc (from_raw-raw a, from_raw-raw b, e)

pub kind_eq→eq : (a b : TokenKind) → kind_eq a b ≡ true → a ≡ b
unfolding kind_eq
kind_eq→eq a b h = raw-inj a b ((==_iff (raw a) (raw b)).0 h)

-- The kinds of a list have the numbers from `i` on.
IsNumbered : ℕ → List TokenKind → Type 0
IsNumbered i [] = Unit
IsNumbered i (k ∷ ks) = (raw k ≡ i) × IsNumbered (suc i) ks

kinds-IsNumbered : IsNumbered 0 kinds
unfolding IsNumbered raw kinds
kinds-IsNumbered = omega arith

raw-get_elem? :
    (i n : ℕ) (ks : List TokenKind) (k : TokenKind)
    → IsNumbered i ks
    → get_elem? ks n ≡ some k
    → raw k ≡ i + n
unfolding IsNumbered
raw-get_elem? i n [] k h e = absurd (cc e)
raw-get_elem? i zero (j ∷ ks) k (h, hs) e = ground arith
raw-get_elem? i (suc n) (j ∷ ks) k (h, hs) e = omega (arith, raw-get_elem? (suc i) n ks k hs e)

-- The scanner's number of a token means a kind exactly where it is the kind's discriminant; all
-- other numbers, the negative ones of the scanner's errors among them, mean none.
pub from_raw_iff : (z : ℤ) (k : TokenKind) → (from_raw z ≡ some k) ↔ (z ≡ pos (raw k))
unfolding from_raw
from_raw_iff (pos n) k = (
  λ e.
      let at : raw k ≡ 0 + n = raw-get_elem? 0 n kinds k kinds-IsNumbered e in
      let same : n ≡ raw k = omega (arith, at) in ap pos same,
  λ e. cc (from_raw-raw k, e),
)
from_raw_iff (negsuc n) k = (λ e. absurd (cc e), λ e. absurd (cc e))
