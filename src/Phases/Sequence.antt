-- ===== src/Phases/Sequence.antt =====
-- `cplr_run`: it returns, and which phases have been passed then.
use cplr.Base.{◌≡◌, Option, some}
use cplr.State.Context.{Cplr}
use cplr.Tcc.{Tcc}
use cplr.Host.{Host}
use cplr.Phases.Prepares.{Prints}
use cplr.Phases.Ends.{Ends, Ends-after}
use cplr.Phases.Sound.{
  links, Usable, Prepared, Compiled, run_prepare-Prepared, run_compile-Compiled,
  run_execute-Compiled,
}
use cplr.Phases.Run.{cplr_run}

module _ (H : Host) (K : Tcc) (prev : Option K.State) (prints : Prints H) where
  pub cplr_run-Compiled :
      (c : Cplr K.State) {t : K.State}
      → K.new ≡ some t
      → Usable K (links c) c
      → Ends K (Compiled K (links c)) (cplr_run H K prev c)
  unfolding cplr_run
  cplr_run-Compiled c n u =
      let l = links c in
      Ends-after (Prepared K l) (Compiled K l) (run_prepare-Prepared H K prev l prints c n u)
        (λ r x (s, one). (s, λ u. one (λ z. cc)))
        (λ x (s, one).
          Ends-after (Compiled K l) (Compiled K l) (run_compile-Compiled H K prev l x s)
            (λ r w k. k) (λ w (s, k). run_execute-Compiled H K prev l w s (λ u. absurd (cc (k u)))))
