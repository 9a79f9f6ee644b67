-- ===== src/Phases/Ends.antt =====
-- How code ends that runs a program in its own process: the program may end the process, go wrong
-- or never return.
use cplr.Base.{ℕ, zero, suc, ◌≡◌, refl, List}
use cplr.Base.Outcome.{
  Outcome, done, crash, exits, aborts, out_of_fuel, ◌>>=◌, and_then, Returns, returns,
}
use cplr.Base.Text.{Text}
use cplr.Tcc.{Tcc}

-- A program that is run ends like this.
abbrev pub Program : (K : Tcc) → Outcome (K.State × ℕ) → Type 0
Program K m = (t : K.State) × (n : ℕ) × (args : List Text) × (K.run t n args ≡ m)

-- The code returns with a value that meets `P`, or it ends the way a program does that is run.
pub data Ends {A : Type 0} (K : Tcc) (P : A → Type 0) : Outcome A → Type 0 where
  ends : {a : A} → P a → Ends K P (done a)
  went_wrong : Program K crash → Ends K P crash
  exited : (n : ℕ) → Program K (exits n) → Ends K P (exits n)
  aborted : Program K aborts → Ends K P aborts
  never_ends : Program K out_of_fuel → Ends K P out_of_fuel

module _ {K : Tcc} {A B : Type 0} {P : A → Type 0} {Q : B → Type 0} where
  pub Ends-bind :
      {m : Outcome A} {f : A → Outcome B}
      → Ends K P m
      → ((a : A) → P a → Ends K Q (f a))
      → Ends K Q (m >>= f)
  Ends-bind (ends p) k = k _ p
  Ends-bind (went_wrong w) k = went_wrong w
  Ends-bind (exited n w) k = exited n w
  Ends-bind (aborted w) k = aborted w
  Ends-bind (never_ends w) k = never_ends w

  pub Ends-Returns :
      {m : Outcome A} {f : A → Outcome B}
      → Returns P m
      → ((a : A) → P a → Ends K Q (f a))
      → Ends K Q (m >>= f)
  Ends-Returns (returns p) k = k _ p

module _ {K : Tcc} {A : Type 0} (P : ℕ × A → Type 0) (Q : ℕ × A → Type 0) where
  pub Ends-after :
      {m : Outcome (ℕ × A)} {k : A → Outcome (ℕ × A)}
      → Returns P m
      → ((n : ℕ) (a : A) → P (suc n, a) → Q (suc n, a))
      → ((a : A) → P (0, a) → Ends K Q (k a))
      → Ends K Q (and_then m k)
  Ends-after (returns {a = (zero, a)} p) fail next = next a p
  Ends-after (returns {a = (suc n, a)} p) fail next = ends (fail n a p)

-- The run of a program.
pub run-Ends :
    (K : Tcc) (t : K.State) (n : ℕ) (args : List Text) → Ends K (λ _. Unit {0}) (K.run t n args)
run-Ends K t n args = go (K.run t n args) refl
  where
    go : (m : Outcome (K.State × ℕ)) → K.run t n args ≡ m → Ends K (λ _. Unit {0}) m
    go (done x) e = ends tt
    go crash e = went_wrong (t, n, args, e)
    go (exits r) e = exited r (t, n, args, e)
    go aborts e = aborted (t, n, args, e)
    go out_of_fuel e = never_ends (t, n, args, e)
