-- ===== src/Package/RoundTrip.antt =====
-- The loop of `cplr_pkgconfig_add` over a text that is made of options.
use cplr.Base.{
  ℕ, zero, suc, ◌+◌, ◌-◌, ◌≤◌, ◌<◌, ◌≡◌, ◌∙◌, refl, ap, append-nil, Bool, true, false, Option, none,
  some, List, [], ◌∷◌, ◌++◌, arith, ◌==◌, length, length-append,
}
use cplr.Base.Outcome.{Outcome, done}
use cplr.Base.Text.{Text, lit, begins_with, is_space}
use cplr.State.Context.{Cplr}
use cplr.Tcc.{Tcc}
use cplr.Package.Scan.{skip_graph, takes_text, add_option, next, round, scan, cplr_pkgconfig_add}
use cplr.Package.Options.{
  PkgOption, define, incdir, libdir, lib, pthread, other, render, IsArgument, IsOption, Lists, end,
  space, last, option, Ends, graph_word, skip_space_letter, begins_pthread, if_and_false,
  space_fuel, apply, apply_all,
}

module _ (K : Tcc) where
  -- The loop behind the body of a round.
  unfoldable pub continue : ℕ → Text → Bool → Option ℕ → Cplr K.State → Outcome (ℕ × Cplr K.State)
  continue k [] dash opt c = done (0, c)
  continue k (_ ∷ o) dash opt c = scan K k o dash opt c

  pub scan-next :
      (k n : ℕ) (o rest : Text) (dash dash' : Bool) (opt opt' : Option ℕ) (c c' : Cplr K.State)
      → round K n o dash opt c ≡ next rest dash' opt' c'
      → scan K (suc k) (n ∷ o) dash opt c ≡ continue k rest dash' opt' c'
  unfolding continue
  scan-next k n o [] dash dash' opt opt' c c' e = unfold scan in rw (e, scan)
  scan-next k n o (_ ∷ rest) dash dash' opt opt' c c' e = unfold scan in rw (e, scan)

  pub scan-dash :
      (k : ℕ) (o : Text) (c : Cplr K.State)
      → scan K (suc k) (b'-' ∷ o) false none c ≡ scan K k o true none c
  unfolding continue
  scan-dash k o c = scan-next k b'-' o (b'-' ∷ o) false true none none c c (unfold round in refl)

  scan-text :
      (k n : ℕ) (s t : Text) (c : Cplr K.State)
      → IsArgument s
      → Ends t
      → scan K (suc k) (s ++ t) false (some n) c ≡ continue k t false none (add_option K n s c)
  scan-text k n [] t c (w, h) e = absurd (omega arith)
  scan-text k n (x ∷ s) t c (w, h) e =
      let (skips, takes) = graph_word (x ∷ s) t w e in
      scan-next k x (s ++ t) t false false (some n) none c (add_option K n (x ∷ s) c)
        (unfold round in rw (skips, takes))

  pub scan-letter :
      (k n : ℕ) (o : Text) (c : Cplr K.State)
      → takes_text n ≡ true
      → scan K (suc k) (n ∷ o) true none c ≡ scan K k o false (some n) c
  unfolding continue
  scan-letter k n o c h =
      scan-next k n o (n ∷ o) true false none (some n) c c
        (unfold round in rw (h, skip_space_letter n o h))

  dash_round_other :
      (n : ℕ) (s t : Text) (c : Cplr K.State)
      → takes_text n ≡ false
      → begins_with (n ∷ s ++ t) (lit "pthread") ≡ false
      → skip_graph (n ∷ s ++ t) ≡ t
      → round K n (s ++ t) true none c ≡ next t false none c
  dash_round_other n s t c h p g = unfold round in rw (h, p, g) (if_and_false (n == b'p') _ _)

  scan-skipped :
      (k n : ℕ) (s t : Text) (c : Cplr K.State)
      → IsOption (other n s)
      → Ends t
      → scan K (suc k) (n ∷ s ++ t) true none c ≡ continue k t false none c
  scan-skipped k n s t c (w, h, p) e =
      scan-next k n (s ++ t) t true false none none c c
        (dash_round_other n s t c h (begins_pthread (n ∷ s) t e p) (graph_word (n ∷ s) t w e).0)

  scan-pthread :
      (k : ℕ) (t : Text) (c : Cplr K.State) {d : K.State}
      → c.tcc ≡ some d
      → scan K (suc k) (lit "pthread" ++ t) true none c
        ≡ continue k (b'd' ∷ t) false none (apply K pthread c)
  scan-pthread k t c h =
      scan-next k b'p' (lit "thread" ++ t) (b'd' ∷ t) true false none none c (apply K pthread c)
        (unfold round begins_with takes_text in rw h)

  scan-end :
      (k : ℕ) (t : Text) (c : Cplr K.State)
      → Ends t
      → scan K (suc k) t false none c ≡ continue k t false none c
  unfolding continue
  scan-end k [] c e = unfold scan in refl
  scan-end k (x ∷ t) c e =
      scan-next k x t (x ∷ t) false false none none c c (unfold round is_space in ground arith)

  -- The rounds that an option takes, on top of `j`.
  abbrev rounds : PkgOption → ℕ → ℕ
  rounds (other n s) j = suc (suc j)
  rounds _ j = suc (suc (suc j))

  scan-argument :
      (k n : ℕ) (s t : Text) (c : Cplr K.State)
      → takes_text n ≡ true
      → IsArgument s
      → Ends t
      → scan K (suc (suc (suc k))) (b'-' ∷ n ∷ s ++ t) false none c
        ≡ continue k t false none (add_option K n s c)
  scan-argument k n s t c h w e =
      scan-dash (suc (suc k)) (n ∷ s ++ t) c
      ∙ scan-letter (suc k) n (s ++ t) c h
      ∙ scan-text k n s t c w e

  scan-option :
      (o : PkgOption) (k : ℕ) (t : Text) (c : Cplr K.State) {d : K.State}
      → IsOption o
      → Ends t
      → c.tcc ≡ some d
      → scan K (rounds o k) (render o ++ t) false none c ≡ continue k t false none (apply K o c)
  unfolding takes_text add_option
  scan-option (define s) k t c i e d = scan-argument k b'D' s t c refl i e
  scan-option (incdir s) k t c i e d = scan-argument k b'I' s t c refl i e
  scan-option (libdir s) k t c i e d = scan-argument k b'L' s t c refl i e
  scan-option (lib s) k t c i e d = scan-argument k b'l' s t c refl i e
  scan-option pthread k t c i e d =
      scan-dash (suc (suc k)) (lit "pthread" ++ t) c
      ∙ scan-pthread (suc k) t c d
      ∙ (unfold continue in scan-end k t (apply K pthread c) e)
  scan-option (other n s) k t c i e d =
      scan-dash (suc k) (n ∷ s ++ t) c ∙ scan-skipped k n s t c i e

  fuel_of_option :
      (o : PkgOption) (k : ℕ)
      → IsOption o
      → length (render o) ≤ k
      → (j : ℕ) × (k ≡ rounds o j) × (k ≤ j + length (render o))
  fuel_of_option (define s) k i h = (k - 3, omega arith, omega arith)
  fuel_of_option (incdir s) k i h = (k - 3, omega arith, omega arith)
  fuel_of_option (libdir s) k i h = (k - 3, omega arith, omega arith)
  fuel_of_option (lib s) k i h = (k - 3, omega arith, omega arith)
  fuel_of_option pthread k i h = (k - 3, omega arith, omega arith)
  fuel_of_option (other n s) k i h = (k - 2, omega arith, omega arith)

  apply-tcc :
      (o : PkgOption) (c : Cplr K.State) {d : K.State}
      → c.tcc ≡ some d
      → (d' : K.State) × ((apply K o c).tcc ≡ some d')
  apply-tcc pthread c {d} h = ((K.set_options d (lit "-pthread")).0, rw h)
  apply-tcc (define s) c {d} h = (d, h)
  apply-tcc _ c {d} h = (d, h)

  scan-Lists :
      (k : ℕ) {t : Text} {os : List PkgOption} (c : Cplr K.State) {d : K.State}
      → Lists t os
      → c.tcc ≡ some d
      → length t < k
      → scan K k t false none c ≡ done (0, apply_all K os c)
  unfolding apply_all continue
  scan-Lists zero c l d h = absurd (omega arith)
  scan-Lists (suc k) c (end e) d h = rw e (unfold scan in refl)
  scan-Lists (suc k) c (space x i e l) d h =
      rw e (scan-end k _ c i ∙ scan-Lists k c l d (space_fuel e h))
  scan-Lists (suc k) {t} c (last o i e) d h =
      let (j, f, _) = fuel_of_option o (suc k) i (omega (arith, ap length e)) in
      rw (e, f) (rw append-nil at (scan-option o j [] c i tt d))
  scan-Lists (suc k) {t} c (option o x i w e l) d h =
      let len = ap length e ∙ length-append (render o) (x ∷ _) in
      let (j, f, b) = fuel_of_option o (suc k) i (omega arith) in
      let (_, d') = apply-tcc o c d in
      rw (e, f) (scan-option o j (x ∷ _) c i w d ∙ scan-Lists j (apply K o c) l d' (omega arith))

  -- The text is options of pkg-config with white space between them, at the ends too, and the
  -- piler has a compiler. Then `cplr_pkgconfig_add` returns 0 and does what the options say, in
  -- their order: `-D` to the definitions, `-I`, `-L` and `-l` to their piles, `-pthread` to the
  -- compiler, and nothing for any other letter.
  pub cplr_pkgconfig_add-Lists :
      {t : Text} {os : List PkgOption} (c : Cplr K.State) {d : K.State}
      → Lists t os
      → c.tcc ≡ some d
      → cplr_pkgconfig_add K t c ≡ done (0, apply_all K os c)
  unfolding cplr_pkgconfig_add
  cplr_pkgconfig_add-Lists {t} c l d = scan-Lists (length t + 1) c l d (omega arith)
