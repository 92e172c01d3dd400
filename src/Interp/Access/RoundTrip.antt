-- ===== src/Interp/Access/RoundTrip.antt =====
-- Writing inside a value and reading there again: `set` and `get` of src/interpreter/expression.rs.
use Prim.Native.Nat.{Ordering}
use net_lang.Prelude.{
  ℕ, zero, suc, ◌≡◌, refl, arith, String, Bool, true, Option, none, some, List, [], ◌∷◌,
  Option-cases, Bool-cases, ◌⊎◌, inl, inr,
}
use net_lang.Prelude.Int.{pos, negsuc}
use net_lang.Prelude.Text.{compare_str}
use net_lang.Types.{TypeRegistry}
use net_lang.Runtime.Value.{Value, Values, Fields, nil, cons, end, entry, get_field, insert_field}
use net_lang.Runtime.Host.{Message, Result, ok, err, panicked, ◌>>=◌, of_option}
use net_lang.Interp.Access.{
  Selector, property, index, get, set, is_empty, set_step, key_of, value_at, count_values,
  set_value_at, element, get_in_array, check_record_field,
}

-- Reading along a path of selectors, as nested accesses do.
unfoldable pub get_path : List Selector → Value → Result Value
get_path [] v = ok v
get_path (selector ∷ rest) v = get v selector >>= get_path rest

compare_str_refl : (s : String) → compare_str s s ≡ Ordering.eq
unfolding compare_str
compare_str_refl String.[] = refl
compare_str_refl (String.◌∷◌ c s) = ground (arith, compare_str_refl s)

get_field-insert_field :
    (key : String) (v : Value) (fields : Fields)
    → get_field key (insert_field key v fields) ≡ some v
unfolding get_field insert_field
get_field-insert_field key v end = ground (arith, compare_str_refl key)
get_field-insert_field key v (entry k w rest) =
    ground (arith, compare_str_refl key, get_field-insert_field key v rest)

value_at-set_value_at :
    (values : Values) (i : ℕ) (old v : Value)
    → value_at values i ≡ some old
    → value_at (set_value_at values i v) i ≡ some v
unfolding value_at set_value_at
value_at-set_value_at nil i old v h = ground arith
value_at-set_value_at (cons w values) zero old v h = refl
value_at-set_value_at (cons w values) (suc i) old v h = value_at-set_value_at values i old v h

-- What a write through an existing child says, where it succeeds.
through :
    (child : Option Value) (m : Message) (below : Value → Result Value) (wrap : Value → Value)
    (root' : Value)
    → (of_option child m >>= λ v. below v >>= λ v'. ok (wrap v')) ≡ ok root'
    → (v : Value) × ((v' : Value) × ((below v ≡ ok v') × (root' ≡ wrap v')))
through none m below wrap root' h = absurd (cc h)
through (some v) m below wrap root' h = go (below v) refl h
  where
    go :
        (r : Result Value)
        → below v ≡ r
        → (r >>= λ v'. ok (wrap v')) ≡ ok root'
        → (v : Value) × ((v' : Value) × ((below v ≡ ok v') × (root' ≡ wrap v')))
    go (ok v') e h = (v, (v', (e, cc h)))
    go (err _) e h = absurd (cc h)
    go panicked e h = absurd (cc h)

after_check :
    (c : Result (Unit {0})) (r : Result Value) (v : Value) → (c >>= λ _. r) ≡ ok v → r ≡ ok v
after_check (ok _) r v h = h
after_check (err _) r v h = absurd (cc h)
after_check panicked r v h = absurd (cc h)

-- A selected element is read at its index, whatever is written there.
get-set_element :
    (values : Values) (i : Value) (m : Message) (n : ℕ) (old v : Value)
    → element values i m ≡ ok (n, old)
    → get_in_array (set_value_at values n v) (index i) ≡ ok v
unfolding element get_in_array
get-set_element values (Value.integer (pos i)) m n old v h =
    elim (Option-cases (value_at values i)) [
      | inl e ↦ absurd (cc (h, e))
      | inr (w, e) ↦ cc (h, e, value_at-set_value_at values i w v e)
    ]
get-set_element values _ m n old v h = absurd (cc h)

module _ (types : TypeRegistry) (selector : Selector) (last : Bool) (below : Value → Result Value)
    (value : Value) where
  -- What a step of a write leaves under its selector.
  Written : Value → Type 0
  Written root' =
      (v' : Value) × ((get root' selector ≡ ok v')
        × (((last ≡ true) × (v' ≡ value)) ⊎ ((v : Value) × (below v ≡ ok v'))))

  get-set_record :
      (identity id : ℕ) (name : String) (fields : Fields) (root' : Value)
      → set_step types selector last below value (Value.record_ identity id name fields) ≡ ok root'
      → Written root'
  unfolding set_step Written get
  get-set_record identity id name fields root' h = elim (Option-cases (key_of selector)) [
    | inl e ↦ absurd (cc (h, e))
    | inr (key, e) ↦
        let (v, (v', (done, at))) =
          through (get_field key fields) (Message.missing_field key) below
            (λ v'. Value.record_ identity id name (insert_field key v' fields)) root'
            (after_check (check_record_field types identity id name key last value) _ root'
              (cc (h, e))) in
        (v', (cc (at, e, get_field-insert_field key v' fields), inr (v, done)))
  ]

  get-set_object :
      (fields : Fields) (root' : Value)
      → set_step types selector last below value (Value.object fields) ≡ ok root'
      → Written root'
  unfolding set_step Written get
  get-set_object fields root' h = elim (Option-cases (key_of selector)) [
    | inl e ↦ absurd (cc (h, e))
    | inr (key, e) ↦ elim (Bool-cases last) [
      | inl final ↦
          (value, (cc (h, e, final, get_field-insert_field key value fields), inl (final, refl)))
      | inr inner ↦
          let (v, (v', (done, at))) =
            through (get_field key fields) (Message.no_object_field key) below
              (λ v'. Value.object (insert_field key v' fields)) root' (cc (h, e, inner)) in
          (v', (cc (at, e, get_field-insert_field key v' fields), inr (v, done)))
    ]
  ]

element-cases :
    (values : Values) (i : Value) (m : Message)
    → ((e : Message) × (element values i m ≡ err e))
      ⊎ ((n : ℕ) × ((v : Value) × (element values i m ≡ ok (n, v))))
unfolding element
element-cases values (Value.integer (pos i)) m = elim (Option-cases (value_at values i)) [
  | inl e ↦ inl (Message.index_bounds i (count_values values), cc e)
  | inr (w, e) ↦ inr (i, (w, cc e))
]
element-cases values (Value.integer (negsuc i)) m = inl (_, refl)
element-cases values _ m = inl (_, refl)

module _ (types : TypeRegistry) (last : Bool) (below : Value → Result Value) (value : Value) where
  get-set_array :
      (selector : Selector) (values : Values) (root' : Value)
      → set_step types selector last below value (Value.array values) ≡ ok root'
      → Written types selector last below value root'
  unfolding set_step Written get
  get-set_array (property _) values root' h = absurd (cc h)
  get-set_array (index i) values root' h =
      elim (element-cases values i Message.invalid_assignment_access) [
        | inl (m, e) ↦ absurd (cc (h, e))
        | inr (n, (v, e)) ↦
            let (_, (v', (done, at))) =
              through (some v) Message.invalid_assignment_access below
                (λ v'. Value.array (set_value_at values n v')) root' (cc (h, e)) in
            (
              v',
              (
                cc (at, get-set_element values i Message.invalid_assignment_access n v v' e),
                inr (_, done),
              ),
            )
      ]

  get-set_step :
      (selector : Selector) (root root' : Value)
      → set_step types selector last below value root ≡ ok root'
      → Written types selector last below value root'
  unfolding set_step
  get-set_step selector (Value.record_ identity id name fields) root' h =
      get-set_record types selector last below value identity id name fields root' h
  get-set_step selector (Value.object fields) root' h =
      get-set_object types selector last below value fields root' h
  get-set_step selector (Value.array values) root' h = get-set_array selector values root' h
  get-set_step selector _ root' h = absurd (cc h)

is_empty-nil : (selectors : List Selector) → is_empty selectors ≡ true → selectors ≡ []
is_empty-nil [] h = refl
is_empty-nil (s ∷ rest) h = absurd (cc h)

-- After an assignment along a path of properties and indices that succeeds, reading along the same
-- path gives the assigned value: through records, objects and arrays, nested to any depth.
pub get_path-set :
    (types : TypeRegistry) (selectors : List Selector) (value root root' : Value)
    → set types selectors value root ≡ ok root'
    → get_path selectors root' ≡ ok value
unfolding set get_path Written
get_path-set types [] value root root' h = cc h
get_path-set types (selector ∷ rest) value root root' h =
    let (v', (read, how)) =
      get-set_step types (is_empty rest) (set types rest value) value selector root root' h in
    elim how [
      | inl (final, e) ↦ cc (read, e, is_empty-nil rest final)
      | inr (v, done) ↦ cc (read, get_path-set types rest value v v' done)
    ]
