-- ===== src/Phases/Waits.antt =====
-- The wait for a forked program.
use cplr.Base.{ℕ, ◌≡◌, ◌≢◌, refl, true, false, some, List, [], ◌∷◌, ◌++◌, arith, All}
use cplr.Base.Outcome.{done}
use cplr.State.Context.{Cplr}
use cplr.Tcc.{Tcc}
use cplr.Host.{Host, Wait, failed, reaped, in_parent}
use cplr.Phases.Execute.{wait_for, forked, cplr_execute}

-- `waitpid` has failed with EAGAIN, or has found another process.
abbrev pub Passed : ℕ → Wait → Type 0
Passed p (failed again) = again ≡ true
Passed p (reaped pid status) = pid ≢ p

wait_for-child :
    (p status : ℕ) (ws rest : List Wait)
    → All (Passed p) ws
    → wait_for p (ws ++ (reaped p status ∷ rest)) ≡ done (some status)
unfolding wait_for
wait_for-child p status [] rest h = ground arith
wait_for-child p status (failed true ∷ ws) rest h = wait_for-child p status ws rest h.1
wait_for-child p status (failed false ∷ ws) rest h = cc (h.0)
wait_for-child p status (reaped pid s ∷ ws) rest h =
    ground (arith, h.0, wait_for-child p status ws rest h.1)

module _ (H : Host) (K : Tcc) where
  -- When the program is to run in a child, the parent passes over waits that fail with EAGAIN
  -- and over other processes until its child is reaped; the result is the child's status, and the piler only
  -- counts as executed.
  pub cplr_execute-child :
      (c : Cplr K.State) (p status : ℕ) (ws rest : List Wait)
      → c.flag.fork ≡ true
      → H.fork ≡ in_parent p (ws ++ (reaped p status ∷ rest))
      → All (Passed p) ws
      → cplr_execute H K c ≡ done (status, record c { flag = record c.flag { executed = true } })
  unfolding cplr_execute forked
  cplr_execute-child c p status ws rest f e h = rw (f, e, wait_for-child p status ws rest h) refl
