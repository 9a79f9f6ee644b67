-- ===== src/Generate/Shown.antt =====
-- The dump of a program, from the piles to the filter.
use cplr.Base.{ℕ, ◌<◌, ◌≡◌, ◌⊎◌, refl, ap, ◌∙◌, true, Option, none, some, [], length, ltb, arith}
use cplr.Base.Outcome.{exits, Returns}
use cplr.Base.Text.{Text}
use cplr.State.Context.{Cplr}
use cplr.Generate.Program.{program}
use cplr.Generate.Phase.{cplr_generate}
use cplr.Generate.Correct.{cplr_generate-program}
use cplr.Generate.Dump.{
  Pipes, Writes, ShortWrite, dump_filter, generate_dump, generate_dump-received,
}

module _ (P : Pipes) (received : P.Stream → Text) where
  -- With a dump level and a filter that can be started, and with more fuel than the program has
  -- bytes, after the dump of the code that has just been generated from a piler with no last file
  -- the filter has received the program that the piles stand for: without line directives at level
  -- 1, and with them from level 2 on; or the process ends with 1 and the filter, which had received
  -- that program up to some piece, took only a part of that piece.
  pub generate_dump-program :
      (w : Writes P received) (closes : (s : P.Stream) → received (P.pclose s) ≡ received s) (k : ℕ)
      (filter : Option Text) {T : Type 0} (c : Cplr T) {out : P.Stream}
      → c.g_prevfile ≡ none
      → 0 < c.dump
      → P.popen (dump_filter filter) ≡ some out
      → received out ≡ []
      → length (program c (ltb 1 c.dump)) < k
      → ((generate_dump P k filter (cplr_generate c) ≡ exits 1)
          × ShortWrite P received (program c (ltb 1 c.dump)))
        ⊎ Returns
            (λ o. (s : P.Stream) × (o ≡ some s) × (received s ≡ program c (ltb 1 c.dump)))
            (generate_dump P k filter (cplr_generate c))
  generate_dump-program w closes k filter c {out} h wanted opened empty lt =
      let e = cplr_generate-program c h in
      let level : (cplr_generate c).dump ≡ c.dump = ap (λ x. x.dump) e in
      let pos : ltb 0 c.dump ≡ true = ground arith in
      let buffer : (cplr_generate c).g_dumpbuf ≡ some (program c (ltb 1 c.dump)) =
        ap (λ x. x.g_dumpbuf) e ∙ rw pos refl in
      generate_dump-received P received w closes k filter (cplr_generate c) (omega arith) buffer
        opened empty lt
