-- ===== src/Types/Cycle/Sound.antt =====
-- A cycle that `has_required_cycle` of src/types.rs finds is one.
use net_lang.Prelude.{
  ℕ, zero, suc, ◌≡◌, refl, sym, subst, String, Bool, true, false, Option, none, some, List, [], ◌∷◌,
  ◌==◌, ==_iff, Bool-cases, Option-cases, if◌then◌else◌, ◌⊎◌, inl, inr,
}
use net_lang.Ast.{TypeField}
use net_lang.Types.{
  TypeRegistry, ResolvedType, primitive, named, resolve, edges_of, fields_of, required, answer,
  is_seen, push_required, search_cycle, cycle_fuel, has_required_cycle,
}
use net_lang.Types.Cycle.{edges_of-fields}

pub data Member (x : ℕ) : List ℕ → Type 0 where
  here : {xs : List ℕ} → Member x (x ∷ xs)
  there : {y : ℕ} {xs : List ℕ} → Member x xs → Member x (y ∷ xs)

-- A value of one type holds a value of the other: by a field, or by a field of a type that it holds.
pub data Requires (types : TypeRegistry) (a : ℕ) : ℕ → Type 0 where
  direct : {b : ℕ} → Member b (edges_of types a) → Requires types a b
  via : {b c : ℕ} → Requires types a b → Member c (edges_of types b) → Requires types a c

module _ (types : TypeRegistry) (start : ℕ) where
  Reached : List ℕ → Type 0
  Reached pending = (p : ℕ) → Member p pending → (p ≡ start) ⊎ Requires types start p

  -- What the scan of a definition's fields says.
  Scanned : Option (List ℕ) → Type 0
  Scanned none = Requires types start start
  Scanned (some pending) = Reached pending

  push_required-Scanned :
      (next pending : List ℕ)
      → ((p : ℕ) → Member p next → Requires types start p)
      → Reached pending
      → Scanned (push_required start next pending)
  unfolding push_required Scanned Reached
  push_required-Scanned [] pending h reached = reached
  push_required-Scanned (i ∷ next) pending h reached =
      go (i == start) refl
        (push_required-Scanned next (i ∷ pending) (λ p m. h p (there m)) (more reached))
    where
      more :
          Reached pending → (p : ℕ) → Member p (i ∷ pending) → (p ≡ start) ⊎ Requires types start p
      more r p here = inr (h i here)
      more r p (there m) = r p m

      go :
          (b : Bool)
          → (i == start) ≡ b
          → Scanned (push_required start next (i ∷ pending))
          → Scanned (if b then none else push_required start next (i ∷ pending))
      go true e rest = subst (λ p. Requires types start p) ((==_iff i start).0 e) (h i here)
      go false e rest = rest

  onward :
      (id : ℕ)
      → (id ≡ start) ⊎ Requires types start id
      → (p : ℕ) → Member p (edges_of types id)
      → Requires types start p
  onward id (inl e) p m = direct (subst (λ i. Member p (edges_of types i)) e m)
  onward id (inr r) p m = via r m

  search_cycle-Requires :
      (f : ℕ) (pending seen : List ℕ)
      → Reached pending
      → search_cycle f types start pending seen ≡ answer true
      → Requires types start start
  unfolding search_cycle Scanned Reached
  search_cycle-Requires zero pending seen reached h = absurd (cc h)
  search_cycle-Requires (suc f) [] seen reached h = absurd (cc h)
  search_cycle-Requires (suc f) (id ∷ pending) seen reached h =
      elim (Bool-cases (is_seen id seen)) [
        | inl old ↦ search_cycle-Requires f pending seen (λ p m. reached p (there m)) (cc (h, old))
        | inr new ↦ elim (Option-cases (fields_of types id)) [
          | inl gone ↦ absurd (cc (h, new, gone))
          | inr (fields, found) ↦
              go fields (push_required start (required types fields) pending) refl
                (λ q r e. search_cycle-Requires f q (id ∷ seen) r e)
                (push_required-Scanned (required types fields) pending
                  (λ p m.
                    onward id (reached id here) p
                      (subst (Member p) (sym (edges_of-fields types id found)) m))
                  (λ p m. reached p (there m)))
                found new
        ]
      ]
    where
      go :
          (fields : List TypeField) (o : Option (List ℕ))
          → push_required start (required types fields) pending ≡ o
          → ((q : List ℕ)
              → Reached q
              → search_cycle f types start q (id ∷ seen) ≡ answer true
              → Requires types start start)
          → Scanned o
          → fields_of types id ≡ some fields
          → is_seen id seen ≡ false
          → Requires types start start
      go fields none e ih scanned found new = scanned
      go fields (some q) e ih scanned found new = ih q scanned (cc (h, e, found, new))

at_start :
    {types : TypeRegistry} (start p : ℕ)
    → Member p (start ∷ [])
    → (p ≡ start) ⊎ Requires types start p
at_start start p here = inl refl
at_start start p (there m) = elim m [ ]

-- Where the search reports a cycle for a name, the name is a named type that holds itself by
-- required fields.
pub has_required_cycle-Requires :
    (types : TypeRegistry) (name : String)
    → has_required_cycle types name ≡ answer true
    → (start : ℕ) × ((resolve types name ≡ some (named start)) × Requires types start start)
unfolding has_required_cycle Reached
has_required_cycle-Requires types name h = go (resolve types name) refl
  where
    go :
        (o : Option ResolvedType)
        → resolve types name ≡ o
        → (start : ℕ) × ((o ≡ some (named start)) × Requires types start start)
    go none e = absurd (cc (h, e))
    go (some (primitive p)) e = absurd (cc (h, e))
    go (some (named start)) e = (
      start,
      (
        refl,
        search_cycle-Requires types start (cycle_fuel types) (start ∷ []) [] (at_start start)
            (cc (h, e)),
      ),
    )
