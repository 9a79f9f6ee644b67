-- ===== src/Session/Total.antt =====
-- The loop over the lines, and the session as a whole.
use cplr.Base.{ℕ, ◌≤◌, ◌≡◌, ◌≢◌, false, none, List, [], ◌∷◌, length}
use cplr.State.Context.{Ptr, null}
use cplr.State.Chain.{Store}
use cplr.Tcc.{Tcc}
use cplr.Host.{Host}
use cplr.Phases.Ends.{Ends}
use cplr.Session.Interact.{Event}
use cplr.Session.Chains.{among, current, Session}
use cplr.Session.Grown.{Grown}

-- The addresses that allocations return are in no use.
abbrev pub Supply : {T : Type 0} → Store T → List Ptr → List Event → Type 0
Supply s used [] = Unit
Supply s used (e ∷ es) =
    (e.fresh ≢ null)
    × (s e.fresh ≡ none)
    × (among used e.fresh ≡ false)
    × Supply s (e.fresh ∷ used) es

module _ (K : Tcc) (b : Ptr) where
  -- What the loop over the lines leaves.
  record Looped (s₀ : Store K.State) (n : ℕ) (x : ℕ × (Ptr × Store K.State)) : Type 0 where
    ps : List Ptr
    used : List Ptr
    result : x.0 ≡ 0
    at_current : x.1.0 ≡ current b ps
    bounded : length ps ≤ n
    grown : Grown K b s₀ x.1.1 ps used
