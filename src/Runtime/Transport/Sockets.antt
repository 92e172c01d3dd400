-- ===== src/Runtime/Transport/Sockets.antt =====
-- The table of sockets of src/runtime/transport.rs, an association list for the `BTreeMap`.
use net_lang.Prelude.{
  ℕ, suc, ◌≤◌, ◌≡◌, refl, Option, none, some, List, [], ◌∷◌, ◌==◌, length, arith, if◌then◌else◌,
}

pub data Socket (H : Type 0) : Type 0 where
  tcp udp unconnected_udp : H → Socket H
  -- The socket and its timeout in milliseconds.
  listener : H → ℕ → Socket H

pub record TransportRuntime (H : Type 0) : Type 0 where
  pub sockets : List (ℕ × Socket H)

module _ {A : Type 0} where
  unfoldable pub find : ℕ → List (ℕ × A) → Option A
  find id [] = none
  find id ((j, x) ∷ rest) = if j == id then some x else find id rest

  unfoldable pub put : ℕ → A → List (ℕ × A) → List (ℕ × A)
  put id x [] = (id, x) ∷ []
  put id x ((j, y) ∷ rest) = if j == id then (id, x) ∷ rest else (j, y) ∷ put id x rest

  unfoldable pub remove : ℕ → List (ℕ × A) → List (ℕ × A)
  remove id [] = []
  remove id ((j, y) ∷ rest) =
      let later = remove id rest in if j == id then later else (j, y) ∷ later

  pub find-put :
      (id k : ℕ) (x : A) (l : List (ℕ × A))
      → find k (put id x l) ≡ (if id == k then some x else find k l)
  unfolding find put
  find-put id k x [] = refl
  find-put id k x ((j, y) ∷ l) = ground (arith, find-put id k x l)

  pub find-remove :
      (id k : ℕ) (l : List (ℕ × A)) → find k (remove id l) ≡ (if id == k then none else find k l)
  unfolding find remove
  find-remove id k [] = ground arith
  find-remove id k ((j, y) ∷ l) = ground (arith, find-remove id k l)

  pub length-put : (id : ℕ) (x : A) (l : List (ℕ × A)) → length (put id x l) ≤ suc (length l)
  unfolding put
  length-put id x [] = omega arith
  length-put id x ((j, y) ∷ l) = ground (arith, length-put id x l)

  pub length-remove : (id : ℕ) (l : List (ℕ × A)) → length (remove id l) ≤ length l
  unfolding remove
  length-remove id [] = omega arith
  length-remove id ((j, y) ∷ l) = ground (arith, length-remove id l)

  pub length-put_found :
      (id : ℕ) (x y : A) (l : List (ℕ × A)) → find id l ≡ some y → length (put id x l) ≡ length l
  unfolding put find
  length-put_found id x y [] h = absurd (cc)
  length-put_found id x y ((j, z) ∷ l) h = ground (arith, length-put_found id x y l)
