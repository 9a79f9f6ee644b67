-- ===== src/Package/Separate.antt =====
-- `cplr_pkgconfig_add` where an option and its argument are separate words.
use cplr.Base.{
  ℕ, suc, ◌+◌, ◌≡◌, ◌≢◌, ◌∙◌, refl, true, false, none, some, [], ◌∷◌, arith, ◌==◌, length,
}
use cplr.Base.Outcome.{done}
use cplr.Base.Text.{Text, is_space}
use cplr.State.Context.{Cplr}
use cplr.Tcc.{Tcc}
use cplr.Package.Scan.{takes_text, add_option, stop, round, scan, cplr_pkgconfig_add}
use cplr.Package.Options.{skip_graph_end}
use cplr.Package.RoundTrip.{continue, scan-next, scan-dash, scan-letter}

module _ (K : Tcc) where
  -- The round of an argument that ends before it begins.
  scan-empty :
      (k n sep : ℕ) (o : Text) (c : Cplr K.State)
      → is_space sep ≡ true
      → scan K (suc k) (sep ∷ o) false (some n) c ≡ scan K k o false none (add_option K n [] c)
  scan-empty k n sep o c s =
      let (skips, takes) = skip_graph_end (sep ∷ o) s in
      scan-next K k sep o (sep ∷ o) false false (some n) none c (add_option K n [] c)
        (unfold round in rw (skips, takes))
      ∙ unfold continue in refl

  scan-stop :
      (k x : ℕ) (o : Text) (c : Cplr K.State)
      → x ≢ b'-'
      → is_space x ≡ false
      → scan K (suc k) (x ∷ o) false none c ≡ done (1, c)
  unfolding scan
  scan-stop k x o c d v =
      let dashed : (x == b'-') ≡ false = ground arith in
      let e : round K x o false none c ≡ stop 1 c = unfold round in rw (dashed, v) in rw (e, scan)

  -- The source skips white space behind the letter of an option, from the letter itself on. So an
  -- argument that stands behind white space is not found: the option gets the empty text, and
  -- where the argument begins, unless by a dash or white space, `cplr_pkgconfig_add` returns 1.
  pub cplr_pkgconfig_add-separate :
      (n sep x : ℕ) (args : Text) (c : Cplr K.State)
      → takes_text n ≡ true
      → is_space sep ≡ true
      → x ≢ b'-'
      → is_space x ≡ false
      → cplr_pkgconfig_add K (b'-' ∷ n ∷ sep ∷ x ∷ args) c ≡ done (1, add_option K n [] c)
  unfolding cplr_pkgconfig_add
  cplr_pkgconfig_add-separate n sep x args c t s d v =
      let fuel : length (b'-' ∷ n ∷ sep ∷ x ∷ args) + 1
          ≡ suc (suc (suc (suc (suc (length args))))) =
        omega arith in
      rw fuel (
        scan-dash K (suc (suc (suc (suc (length args))))) (n ∷ sep ∷ x ∷ args) c
        ∙ scan-letter K (suc (suc (suc (length args)))) n (sep ∷ x ∷ args) c t
        ∙ scan-empty (suc (suc (length args))) n sep (x ∷ args) c s
        ∙ scan-stop (suc (length args)) x args (add_option K n [] c) d v)
