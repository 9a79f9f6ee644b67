-- ===== src/Base/Outcome.antt =====
-- The result of C code: a value, or what the language leaves undefined (a NULL pointer that is
-- read, a block that is freed twice), or the end of the process, by `exit` or by `abort`, or a
-- loop that has used up its fuel.
use Prim.Native.Nat.{ℕ, zero, suc}
use mathlib.Core.Path.{◌≡◌, refl}

pub data Outcome {ℓ} (A : Type ℓ) : Type ℓ where
  done : A → Outcome A
  crash : Outcome A
  exits : ℕ → Outcome A
  aborts : Outcome A
  out_of_fuel : Outcome A

infixl 5 ◌>>=◌
abbrev pub ◌>>=◌ {ℓ κ} : {A : Type ℓ} {B : Type κ} → Outcome A → (A → Outcome B) → Outcome B
done a >>= f = f a
crash >>= f = crash
exits n >>= f = exits n
aborts >>= f = aborts
out_of_fuel >>= f = out_of_fuel

-- The run ends with a value that meets `P`.
pub data Returns {ℓ κ} {A : Type ℓ} (P : A → Type κ) : Outcome A → Type (ℓ ⊔ κ) where
  returns : {a : A} → P a → Returns P (done a)

pub Returns-bind {ℓ κ μ ν} :
    {A : Type ℓ} {B : Type κ} {P : A → Type μ} {Q : B → Type ν} {m : Outcome A} {f : A → Outcome B}
    → Returns P m
    → ((a : A) → P a → Returns Q (f a))
    → Returns Q (m >>= f)
Returns-bind (returns p) k = k _ p

pub Returns-mono {ℓ μ ν} :
    {A : Type ℓ} {P : A → Type μ} {Q : A → Type ν} {m : Outcome A}
    → Returns P m
    → ((a : A) → P a → Q a)
    → Returns Q m
Returns-mono (returns p) k = returns (k _ p)

pub Returns-done {ℓ κ} :
    {A : Type ℓ} {P : A → Type κ} {m : Outcome A} → Returns P m → (a : A) × (m ≡ done a) × P a
Returns-done (returns {a} p) = (a, refl, p)

-- A step that returns its status beside the new state: the next one is taken after a 0.
abbrev pub and_then {ℓ} : {A : Type ℓ} → Outcome (ℕ × A) → (A → Outcome (ℕ × A)) → Outcome (ℕ × A)
and_then (done (zero, a)) k = k a
and_then (done (suc n, a)) k = done (suc n, a)
and_then crash k = crash
and_then (exits n) k = exits n
and_then aborts k = aborts
and_then out_of_fuel k = out_of_fuel

-- Two steps, where what the first one leaves is enough if it fails.
pub Returns-and_then {ℓ κ μ} :
    {A : Type ℓ} (P : A → Type κ) (Q : A → Type μ) {m : Outcome (ℕ × A)} {k : A → Outcome (ℕ × A)}
    → Returns (λ (n, a). P a) m
    → ((a : A) → P a → Q a)
    → ((a : A) → P a → Returns (λ (n, b). Q b) (k a))
    → Returns (λ (n, b). Q b) (and_then m k)
Returns-and_then P Q (returns {a = (zero, a)} p) weaken next = next a p
Returns-and_then P Q (returns {a = (suc n, a)} p) weaken next = returns (weaken a p)
