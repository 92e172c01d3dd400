-- ===== src/Prelude/Text.antt =====
-- Names compared, ordered and looked up. Rust orders strings by their UTF-8 bytes, which is the
-- order of their code points.
use Prim.Native.Nat.{compare, Ordering}
use Prim.Native.Char.{code}
use Prim.Native.String.{String}
use text.Mathlib.Text.{◌==◌}
use text.Mathlib.TextEquality.{eq_iff}
use mathlib.Core.Path.{◌≡◌, refl}
use mathlib.Core.Bool.{Bool, true, false}
use mathlib.Core.List.{List, [], ◌∷◌}
use mathlib.Core.Option.{Option, none, some}
use native.Mathlib.Omega.{arith}
use net_lang.Prelude.Tests.{if◌then◌else◌}

abbrev pub str_eq : String → String → Bool
str_eq a b = a == b

unfoldable pub compare_str : String → String → Ordering
compare_str String.[] String.[] = Ordering.eq
compare_str String.[] (String.◌∷◌ _ _) = Ordering.lt
compare_str (String.◌∷◌ _ _) String.[] = Ordering.gt
compare_str (String.◌∷◌ c s) (String.◌∷◌ d t) =
    let rest = compare_str s t in
    elim (compare (code c) (code d)) [ Ordering.eq ↦ rest | other ↦ other ]

-- A `HashMap<String, A>`, as a list with one entry for a name.
module _ {ℓ} {A : Type ℓ} where
  abbrev pub lookup : String → List (String × A) → Option A
  lookup name ((found, value) ∷ rest) =
      let later = lookup name rest in if str_eq found name then some value else later
  lookup name [] = none

  abbrev pub insert : String → A → List (String × A) → List (String × A)
  insert name value ((found, old) ∷ rest) =
      let later = (found, old) ∷ insert name value rest in
      if str_eq found name then (name, value) ∷ rest else later
  insert name value [] = (name, value) ∷ []

  -- The other names mean what they meant.
  pub lookup-insert :
      (map_ : List (String × A)) (added : String) (value : A) (name : String)
      → (if str_eq added name then some value else lookup name map_)
        ≡ lookup name (insert added value map_)
  lookup-insert ((found, old) ∷ rest) added value name = ground (
    arith,
    lookup-insert rest added value name,
    eq_iff found added,
    eq_iff found name,
    eq_iff added name,
  )
  lookup-insert [] added value name = refl

-- Membership of a name in a `HashSet<String>`, kept as a list.
abbrev pub contains : String → List String → Bool
contains k [] = false
contains k (j ∷ m) = if j == k then true else contains k m
