-- ===== src/Types/Cycle.antt =====
-- The search of `has_required_cycle` in src/types.rs ends (its children: it stays inside the registry,
-- and a cycle that it finds is one): its fuel is more than the stack and the
-- edges out of the definitions that are not yet seen.
pub mod Sound
pub mod Inside
use net_lang.Prelude.{
  ℕ, zero, suc, ◌+◌, ◌≤◌, ◌<◌, ◌≡◌, ◌≢◌, refl, ap, arith, false, none, some, List, [], ◌∷◌, length,
  get_elem?, if◌then◌else◌, Option-cases, Bool-cases, inl, inr, ◌⊎◌,
}
use net_lang.Ast.{TypeField}
use net_lang.Types.{
  TypeRegistry, fields_of, edges_of, required, out_of_fuel, is_seen, push_required, search_cycle,
  edges_below, cycle_fuel,
}

get_elem?-out {ℓ} : {A : Type ℓ} (xs : List A) (i : ℕ) → length xs ≤ i → get_elem? xs i ≡ none
get_elem?-out [] i h = refl
get_elem?-out (x ∷ xs) zero h = absurd (omega arith)
get_elem?-out (x ∷ xs) (suc i) h = get_elem?-out xs i (omega arith)

last_or_below : (i n : ℕ) → i < suc n → (i ≡ n) ⊎ (i < n)
last_or_below i n h = ground arith

below_or_out : (i n : ℕ) → (i < n) ⊎ (n ≤ i)
below_or_out i n = ground arith

module _ (types : TypeRegistry) where
  -- The edges out of the definitions below `n` that are not seen.
  unseen_edges : List ℕ → ℕ → ℕ
  unseen_edges seen zero = 0
  unseen_edges seen (suc n) =
      (if is_seen n seen then 0 else length (edges_of types n)) + unseen_edges seen n

  unseen_edges-start : (n : ℕ) → unseen_edges [] n ≡ edges_below types n
  unfolding unseen_edges is_seen edges_below
  unseen_edges-start zero = refl
  unseen_edges-start (suc n) = omega (arith, unseen_edges-start n)

  unseen_edges-mark_le :
      (id : ℕ) (seen : List ℕ) (n : ℕ) → unseen_edges (id ∷ seen) n ≤ unseen_edges seen n
  unfolding unseen_edges is_seen
  unseen_edges-mark_le id seen zero = omega arith
  unseen_edges-mark_le id seen (suc n) = ground (arith, unseen_edges-mark_le id seen n)

  unseen_edges-mark :
      (id : ℕ) (seen : List ℕ) (n : ℕ)
      → id < n
      → is_seen id seen ≡ false
      → unseen_edges (id ∷ seen) n + length (edges_of types id) ≤ unseen_edges seen n
  unfolding unseen_edges is_seen
  unseen_edges-mark id seen zero below new = absurd (omega arith)
  unseen_edges-mark id seen (suc n) below new = elim (last_or_below id n below) [
    | inl e ↦ grind (arith, e, new, unseen_edges-mark_le id seen n)
    | inr h ↦ ground (arith, unseen_edges-mark id seen n h new)
  ]

  edges_of-out : (id : ℕ) → length types.definitions ≤ id → edges_of types id ≡ []
  unfolding edges_of fields_of
  edges_of-out id h = cc (get_elem?-out types.definitions id h)

  -- Seeing a definition pays for the edges that it pushes.
  unseen_edges-visit :
      (id : ℕ) (seen : List ℕ)
      → is_seen id seen ≡ false
      → unseen_edges (id ∷ seen) (length types.definitions) + length (edges_of types id)
        ≤ unseen_edges seen (length types.definitions)
  unseen_edges-visit id seen new = elim (below_or_out id (length types.definitions)) [
    | inl h ↦ unseen_edges-mark id seen (length types.definitions) h new
    | inr h ↦
        rw (edges_of-out id h)
          (omega (arith, unseen_edges-mark_le id seen (length types.definitions)))
  ]

  push_required-length :
      (start : ℕ) (next pending pending' : List ℕ)
      → push_required start next pending ≡ some pending'
      → length pending' ≡ length next + length pending
  unfolding push_required
  push_required-length start [] pending pending' h = ground arith
  push_required-length start (i ∷ next) pending pending' h =
      ground (arith, push_required-length start next (i ∷ pending) pending')

  -- A definition that is there has the edges of its fields.
  pub edges_of-fields :
      (id : ℕ) {fields : List TypeField}
      → fields_of types id ≡ some fields
      → edges_of types id ≡ required types fields
  unfolding edges_of
  edges_of-fields id e = rw (e, edges_of) refl

  search_cycle-ends :
      (f start : ℕ) (pending seen : List ℕ)
      → length pending + unseen_edges seen (length types.definitions) < f
      → search_cycle f types start pending seen ≢ out_of_fuel
  unfolding search_cycle
  search_cycle-ends zero start pending seen h = absurd (omega arith)
  search_cycle-ends (suc f) start [] seen h = λ e. cc
  search_cycle-ends (suc f) start (id ∷ pending) seen h = elim (Bool-cases (is_seen id seen)) [
    | inl old ↦ rw old (search_cycle-ends f start pending seen (omega arith))
    | inr new ↦ elim (Option-cases (fields_of types id)) [
      | inl none_there ↦ λ e. cc (new, none_there, e)
      | inr (fields, there) ↦
          elim (Option-cases (push_required start (required types fields) pending)) [
            | inl found ↦ λ e. cc (new, there, found, e)
            | inr (pending', more) ↦ λ e.
                search_cycle-ends f start pending' (id ∷ seen)
                  (omega (
                    arith,
                    unseen_edges-visit id seen new,
                    ap length (edges_of-fields id there),
                    push_required-length start (required types fields) pending pending' more,
                  ))
                  (cc (new, there, more, e))
          ]
    ]
  ]

  pub search_cycle-fuel :
      (start : ℕ) → search_cycle (cycle_fuel types) types start (start ∷ []) [] ≢ out_of_fuel
  search_cycle-fuel start =
      search_cycle-ends (cycle_fuel types) start (start ∷ []) []
        (omega (arith, unseen_edges-start (length types.definitions)))
