-- ===== src/Runtime/Http/Bounds.antt =====
-- The limits of a request and its retries: src/runtime/http.rs.
use net_lang.Prelude.{
  ℕ, zero, suc, ◌≤◌, ◌<◌, ◌≡◌, refl, ap, subst, String, Bool, true, false, ◌&&◌, leb, arith, ◌⊎◌,
  inl, inr, Bool-cases, if◌then◌else◌,
}
use net_lang.Prelude.Int.{pos, negsuc}
use net_lang.Prelude.Text.{str_eq}
use net_lang.Ast.{HttpMethod}
use net_lang.Runtime.Value.{Value, Fields, end, entry}
use net_lang.Runtime.Http.{Options, Sent, Client, Result, ok, err, ◌>>=◌}
use net_lang.Runtime.Http.Config.{
  json_value, parse_headers, parse_query, set_headers, set_query, set_timeout, set_retry,
  set_option, set_options, parse,
}
use net_lang.Runtime.Http.Request.{may_retry, final, attempts}

-- A timeout from a millisecond to a day, and ten retries at most.
abbrev IsBounded : Options → Type 0
IsBounded o = (1 ≤ o.timeout) × (o.timeout ≤ 86400000) × (o.retries ≤ 10)

-- A result, if there is one, is bounded.
abbrev Bounded : Result Options → Type 0
Bounded (ok o) = IsBounded o
Bounded (err e) = Unit

Bounded-bind :
    {A : Type 0} (r : Result A) (f : A → Options)
    → ((a : A) → IsBounded (f a))
    → Bounded (r >>= λ a. ok (f a))
Bounded-bind (ok a) f h = h a
Bounded-bind (err e) f h = tt

Bounded-if :
    (b : Bool) (x y : Result Options)
    → (b ≡ true → Bounded x)
    → Bounded y
    → Bounded (if b then x else y)
Bounded-if true x y hx hy = hx refl
Bounded-if false x y hx hy = hy

module _ {W : Type 0} (client : Client W) (show : Value → String) where
  set_headers-Bounded :
      (v : Value) (o : Options) → IsBounded o → Bounded (set_headers client show v o)
  set_headers-Bounded (Value.object fs) o h =
      Bounded-bind (parse_headers client fs o.headers) _ λ _. h
  set_headers-Bounded _ o h = tt

  set_query-Bounded : (v : Value) (o : Options) → IsBounded o → Bounded (set_query client show v o)
  set_query-Bounded (Value.object fs) o h =
      Bounded-bind (parse_query client show fs o.query) _ λ _. h
  set_query-Bounded _ o h = tt

  set_timeout-Bounded :
      (v : Value) (o : Options) → IsBounded o → Bounded (set_timeout client show v o)
  set_timeout-Bounded (Value.duration ms) o h =
      Bounded-if (leb 1 ms && leb ms 86400000) _ _ (λ e. ground arith) tt
  set_timeout-Bounded _ o h = tt

  set_retry-Bounded : (v : Value) (o : Options) → IsBounded o → Bounded (set_retry client show v o)
  set_retry-Bounded (Value.integer (pos count)) o h =
      Bounded-if (leb count 10) _ _ (λ e. ground arith) tt
  set_retry-Bounded (Value.integer (negsuc n)) o h = tt
  set_retry-Bounded _ o h = tt

  set_option-Bounded :
      (key : String) (v : Value) (o : Options)
      → IsBounded o
      → Bounded (set_option client show key v o)
  unfolding set_option
  set_option-Bounded key v o h =
      Bounded-if (str_eq key "headers") _ _ (λ _. set_headers-Bounded v o h)
        (Bounded-if (str_eq key "query") _ _ (λ _. set_query-Bounded v o h)
          (Bounded-if (str_eq key "json") _ _ (λ _. Bounded-bind (json_value client v) _ λ _. h)
            (Bounded-if (str_eq key "timeout") _ _ (λ _. set_timeout-Bounded v o h)
              (Bounded-if (str_eq key "retry") _ _ (λ _. set_retry-Bounded v o h) tt))))

  set_options_rest :
      (r : Result Options) (f : Options → Result Options)
      → Bounded r
      → ((o : Options) → IsBounded o → Bounded (f o))
      → Bounded (r >>= f)
  set_options_rest (ok o) f h g = g o h
  set_options_rest (err e) f h g = tt

  set_options-Bounded :
      (fs : Fields) (o : Options) → IsBounded o → Bounded (set_options client show fs o)
  unfolding set_options
  set_options-Bounded end o h = h
  set_options-Bounded (entry key v fs) o h =
      set_options_rest (set_option client show key v o) (set_options client show fs)
        (set_option-Bounded key v o h) (λ o' h'. set_options-Bounded fs o' h')

  parse-Bounded : (v : Value) → Bounded (parse client show v)
  unfolding parse
  parse-Bounded (Value.object fs) = set_options-Bounded fs _ (omega arith)
  parse-Bounded _ = tt

  -- A configuration that `Options::parse` takes has a timeout from 1 millisecond to 24 hours and at
  -- most 10 retries.
  pub parse_bounds :
      (v : Value) {o : Options}
      → parse client show v ≡ ok o
      → (1 ≤ o.timeout) × (o.timeout ≤ 86400000) × (o.retries ≤ 10)
  parse_bounds v {o} h = subst Bounded h (parse-Bounded v)

module _ {W : Type 0} (client : Client W) (method : HttpMethod) (url : String) (o : Options) where
  -- The state of the client after some tries, and what a try brings.
  pub after : ℕ → W → W
  after zero w = w
  after (suc k) w = after k (client.send method url o w).1

  pub sent_at : ℕ → W → Sent
  sent_at k w = (client.send method url o (after k w)).0

  -- The tries stop at try `k`.
  record StopsAt (left : ℕ) (w : W) (k : ℕ) : Type 0 where
    pub within : k ≤ left
    pub result : attempts client left method url o w ≡ (final client (sent_at k w), after (suc k) w)
    pub retried : (j : ℕ) → j < k → may_retry client (sent_at j w) ≡ true
    pub last : (may_retry client (sent_at k w) ≡ false) ⊎ (k ≡ left)

  earlier :
      (left : ℕ) (w : W) (k : ℕ)
      → may_retry client (client.send method url o w).0 ≡ true
      → ((j : ℕ) → j < k → may_retry client (sent_at j (client.send method url o w).1) ≡ true)
      → (j : ℕ) → j < suc k
      → may_retry client (sent_at j w) ≡ true
  unfolding after sent_at
  earlier left w k y h zero l = y
  earlier left w k y h (suc j) l = h j (omega arith)

  later : {P : Type 0} {k left : ℕ} → P ⊎ (k ≡ left) → P ⊎ (suc k ≡ suc left)
  later (inl p) = inl p
  later (inr e) = inr (ap suc e)

  attempts-StopsAt : (left : ℕ) (w : W) → (k : ℕ) × StopsAt left w k
  unfolding attempts after sent_at
  attempts-StopsAt zero w = (
    0,
    record {
      within = omega arith;
      result = refl;
      retried = λ j h. absurd (omega arith);
      last = inr refl;
    },
  )
  attempts-StopsAt (suc left) w =
      let w' = (client.send method url o w).1 in
      elim (Bool-cases (may_retry client (client.send method url o w).0)) [
        | inr n ↦ (
          0,
          record {
            within = omega arith;
            result = rw n;
            retried = λ j h. absurd (omega arith);
            last = inl n;
          },
        )
        | inl y ↦
            let (k, r) = attempts-StopsAt left w' in
            (
              suc k,
              record {
                within = omega (arith, r.within);
                result = rw y r.result;
                retried = λ j h. earlier left w k y r.retried j h;
                last = later r.last;
              },
            )
      ]

  -- The tries of a request with some retries left: there is a last try, and the retries allow for it;
  -- the result is what the last try gives, and the client has made that try and those before it; each
  -- try before it came back with a status or an error that allows another; and the last does not, or
  -- no retry was left.
  pub attempts_last :
      (left : ℕ) (w : W)
      → (k : ℕ) × (k ≤ left)
        × (attempts client left method url o w ≡ (final client (sent_at k w), after (suc k) w))
        × ((j : ℕ) → j < k → may_retry client (sent_at j w) ≡ true)
        × ((may_retry client (sent_at k w) ≡ false) ⊎ (k ≡ left))
  attempts_last left w =
      let (k, s) = attempts-StopsAt left w in (k, s.within, s.result, s.retried, s.last)
