-- ===== src/Session/Listing.antt =====
-- What the commands print along a chain of pilers.
use cplr.Base.{
  ℕ, zero, suc, ◌+◌, ◌<◌, ◌≡◌, ◌≢◌, refl, sym, ap, ◌∙◌, false, none, some, List, [], ◌∷◌, ◌++◌,
  length, append-nil, append_assoc, arith, ◌==◌,
}
use cplr.Base.Outcome.{done, Returns, returns, Returns-mono}
use cplr.Base.Text.{Text, lit}
use cplr.Base.Decimal.{decimal}
use cplr.State.Context.{Cplr, Ptr, null, cplr_empty}
use cplr.State.Clone.{copy_fields}
use cplr.State.Chain.{Store, write, chained, cplr_chain}
use cplr.State.Laws.{NoNull, cplr_chain_lem}
use cplr.Session.Chains.{write_self, write_other}
use cplr.Command.Print.{word, print_each, list_piler, stat_line, cmd_list_text, cmd_stat_text}

-- From `p` the links to the next piler lead through the pilers `cs` to the last one at `at`.
pub data Trail {T : Type 0} (s : Store T) (at : Ptr) : Ptr → List (Cplr T) → Type 0 where
  last :
      {p : Ptr} {c : Cplr T}
      → p ≡ at
      → p ≢ null
      → s p ≡ some c
      → c.c_next ≡ null
      → Trail s at p (c ∷ [])
  link :
      {p : Ptr} {c : Cplr T} {cs : List (Cplr T)}
      → p ≢ at
      → p ≢ null
      → s p ≡ some c
      → Trail s at c.c_next cs
      → Trail s at p (c ∷ cs)

module _ {T : Type 0} (line : Cplr T → Text) where
  -- The lines for the pilers, in their order.
  abbrev pub lines_of : List (Cplr T) → Text
  lines_of [] = []
  lines_of (c ∷ cs) = line c ++ lines_of cs

  print_each-Trail :
      (k : ℕ) {s : Store T} {at p : Ptr} {cs : List (Cplr T)}
      → Trail s at p cs
      → length cs < k
      → print_each line k p s ≡ done (lines_of cs)
  unfolding print_each
  print_each-Trail zero t h = absurd (omega arith)
  print_each-Trail (suc zero) (last i ne e n) h = absurd (omega arith)
  print_each-Trail (suc (suc k)) {s} (last {p} {c} i ne e n) h =
      let nz : (p == null) ≡ false = ground arith in rw (nz, e, n) refl
  print_each-Trail (suc zero) (link i ne e t) h = absurd (omega arith)
  print_each-Trail (suc k) {s} (link {p} {c} i ne e t) h =
      let nz : (p == null) ≡ false = ground arith in
      rw (nz, e, print_each-Trail k t (omega arith)) refl

  -- A trail for a longer chain, and what is printed along it.
  record Longer (s' : Store T) (fresh p : Ptr) (cs : List (Cplr T)) (n : Cplr T) : Type 0 where
    ds : List (Cplr T)
    trail : Trail s' fresh p ds
    one_more : length ds ≡ length cs + 1
    printed : lines_of ds ≡ lines_of cs ++ line n

  module _ (fresh at : Ptr) (s : Store T) (n : Cplr T) (fresh_ne : fresh ≢ null)
      (unused : s fresh ≡ none) (ends : n.c_next ≡ null)
      (unlinked : (c : Cplr T) (q : Ptr) → line (record c { c_next = q }) ≡ line c) where
    -- The last piler gets its link to the new one.
    Trail-Longer :
        {c : Cplr T} {p : Ptr} {cs : List (Cplr T)}
        → s at ≡ some c
        → Trail s at p cs
        → Longer
            (write (write s fresh (some n)) at (some (record c { c_next = fresh })))
            fresh
            p
            cs
            n
    Trail-Longer {c} {p} here (last {c = d} i ne e nn) =
        let linked = some (record c { c_next = fresh }) in
        let s₁ = write s fresh (some n) in
        let apart : fresh ≢ at = λ j. cc (ap s j) in
        let same : d ≡ c = cc (ap s i) in
        record {
          ds = record c { c_next = fresh } ∷ n ∷ [];
          trail =
              link (λ j. apart (sym j ∙ i)) ne (ap (write s₁ at linked) i ∙ write_self s₁ at linked)
                (last refl fresh_ne
                  (write_other s₁ at linked fresh apart ∙ write_self s fresh (some n)) ends);
          one_more = refl;
          printed =
              ap (λ t. t ++ (line n ++ [])) (unlinked c fresh)
              ∙ (ap (λ t. line c ++ t) (append-nil (line n))
                  ∙ ap (λ t. t ++ line n) (ap line (sym same) ∙ sym (append-nil (line d))));
        }
    Trail-Longer {c} {p} here (link {c = d} {cs} i ne e t) =
        let linked = some (record c { c_next = fresh }) in
        let s₁ = write s fresh (some n) in
        let l = Trail-Longer here t in
        let out : p ≢ fresh = λ j. cc (ap s j) in
        record {
          ds = d ∷ l.ds;
          trail =
              link out ne (write_other s₁ at linked p i ∙ (write_other s fresh (some n) p out ∙ e))
                l.trail;
          one_more = omega (arith, l.one_more);
          printed =
              ap (λ t. line d ++ t) l.printed ∙ sym (append_assoc (line d) (lines_of cs) (line n));
        }

  -- Printing along a chain that has got a new piler.
  print_each-cplr_chain :
      (fresh at : Ptr) (s : Store T) {c : Cplr T} {p : Ptr} {cs : List (Cplr T)} (k : ℕ)
      → ((c : Cplr T) (q : Ptr) → line (record c { c_next = q }) ≡ line c)
      → fresh ≢ null
      → s fresh ≡ none
      → at ≢ null
      → s at ≡ some c
      → NoNull c.defs
      → Trail s at p cs
      → length cs < k
      → Returns
          (λ s'.
            (s' fresh ≡ some (chained at c (copy_fields fresh c c.defs)))
            × (print_each line (suc k) p s'
                ≡ done (lines_of cs ++ line (chained at c (copy_fields fresh c c.defs)))))
          (cplr_chain fresh at s)
  print_each-cplr_chain fresh at s {c} {p} {cs} k unlinked ne unused at_ne here h t lt =
      let n = chained at c (copy_fields fresh c c.defs) in
      let l = Trail-Longer fresh at s n ne unused refl unlinked here t in
      let apart : fresh ≢ at = λ j. cc (ap s j) in
      rw (cplr_chain_lem fresh at s at_ne here h) (
        returns (
          write_other (write s fresh (some n)) at (some (record c { c_next = fresh })) fresh apart
              ∙ write_self s fresh (some n),
          print_each-Trail (suc k) l.trail (omega (arith, l.one_more)) ∙ ap done l.printed,
        ))

module _ {T : Type 0} (fresh at : Ptr) (s : Store T) {c : Cplr T} {cs : List (Cplr T)} (k : ℕ)
    (ne : fresh ≢ null) (unused : s fresh ≡ none) (at_ne : at ≢ null) (here : s at ≡ some c)
    (defs : NoNull c.defs) (t : Trail s at c.c_first cs) (lt : length cs < k) where
  -- The list of the code is printed along the chain, with more fuel than pilers, and it is the
  -- same again behind `cplr_chain`: the new piler has nothing to show yet.
  pub cmd_list_text-cplr_chain :
      Returns
        (λ s'.
          (d : Cplr T) × (s' fresh ≡ some d)
          × (cmd_list_text k c s ≡ done (lines_of list_piler cs))
          × (cmd_list_text (suc k) d s' ≡ cmd_list_text k c s))
        (cplr_chain fresh at s)
  unfolding cmd_list_text list_piler cplr_empty
  cmd_list_text-cplr_chain =
      let before = print_each-Trail list_piler k t lt in
      Returns-mono
        (print_each-cplr_chain list_piler fresh at s k (λ c q. refl) ne unused at_ne here defs t lt)
        λ s' (e, printed).
          (_, e, before, printed ∙ (ap done (append-nil (lines_of list_piler cs)) ∙ sym before))

  -- The status behind `cplr_chain` is the status before it with a line for the new piler. It still
  -- says that the code of the new piler is generated if that of the one before is.
  pub cmd_stat_text-cplr_chain :
      Returns
        (λ s'.
          (d : Cplr T) × (s' fresh ≡ some d)
          × (cmd_stat_text k c s ≡ done (lines_of stat_line cs))
          × (cmd_stat_text (suc k) d s'
              ≡ done (
                  lines_of stat_line cs
                  ++ ((b'c' ∷ decimal (c.c_index + 1))
                      ++ (b':' ∷ (word c.flag.generated (lit "generated") ++ lit "\n"))))))
        (cplr_chain fresh at s)
  unfolding cmd_stat_text stat_line
  cmd_stat_text-cplr_chain =
      Returns-mono
        (print_each-cplr_chain stat_line fresh at s k (λ c q. refl) ne unused at_ne here defs t lt)
        λ s' (e, printed). (_, e, print_each-Trail stat_line k t lt, printed)
