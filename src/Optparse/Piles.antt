-- ===== src/Optparse/Piles.antt =====
-- Which pile an argument goes to, and the order in a pile.
use cplr.Base.{
  ℕ, zero, suc, ◌<◌, ◌≡◌, refl, sym, ap, ◌∙◌, Bool, true, false, List, [], ◌∷◌, ◌++◌, snoc, arith,
  ◌==◌, if◌then◌else◌, append-nil, append_assoc, length, All,
}
use cplr.Base.Text.{Text}
use cplr.State.Context.{Cplr}
use cplr.Optparse.Options.{
  Opt, handled, argument, help, herald, version, verbose, dump, noexec, pristine, interactive,
  compiler_flag, machine_flag, define, undefine, include_dir, include, sysinclude_dir, sysinclude,
  library_dir, library, pkg, before, after, toplevel, source, output, program_args, missing,
  unknown, Getopt, ended, found, next, dispatch, parse_options, cplr_optparse,
}

abbrev nth : ℕ → List (List Text) → List Text
nth i [] = []
nth zero (xs ∷ xss) = xs
nth (suc i) (xs ∷ xss) = nth i xss

abbrev push : ℕ → Text → List (List Text) → List (List Text)
push i a [] = []
push zero a (xs ∷ xss) = snoc xs a ∷ xss
push (suc i) a (xs ∷ xss) = xs ∷ push i a xss

-- The piles that options add their arguments to, but for the definitions.
abbrev pub piles : {T : Type 0} → Cplr T → List (List Text)
piles c =
    c.stms ∷ c.befs ∷ c.afts ∷ c.tlfs ∷ c.srcs ∷ c.incdirs ∷ c.sysdirs ∷ c.incs ∷ c.syss ∷ c.libdirs
    ∷ c.libs ∷ c.pkgs ∷ c.optf ∷ []

-- The number of an option's pile, from 0 on; options without one have the number 13.
abbrev pub pile_of : Opt → ℕ
pile_of argument = 0
pile_of before = 1
pile_of after = 2
pile_of toplevel = 3
pile_of source = 4
pile_of include_dir = 5
pile_of sysinclude_dir = 6
pile_of include = 7
pile_of sysinclude = 8
pile_of library_dir = 9
pile_of library = 10
pile_of pkg = 11
pile_of compiler_flag = 12
pile_of machine_flag = 12
pile_of _ = 13

-- Options after which the loop goes on.
abbrev pub goes_on : Opt → Bool
goes_on help = false
goes_on herald = false
goes_on version = false
goes_on program_args = false
goes_on missing = false
goes_on unknown = false
goes_on _ = true

abbrev pub GoesOn : Opt × (Text × ℕ) → Type 0
GoesOn (opt, rest) = goes_on opt ≡ true

-- The first results of `getopt_long`, and what comes behind them.
abbrev pub founds : List (Opt × (Text × ℕ)) → Getopt → Getopt
founds [] g = g
founds ((opt, (a, k)) ∷ xs) g = found opt a k (founds xs g)

-- The result at an option that ends the loop.
abbrev pub ends_with : Opt → ℕ
ends_with help = 2
ends_with herald = 2
ends_with version = 2
ends_with missing = 1
ends_with unknown = 1
ends_with _ = 0

-- The arguments for one pile, in their order.
abbrev pub arguments : ℕ → List (Opt × (Text × ℕ)) → List Text
arguments i [] = []
arguments i ((opt, (a, k)) ∷ xs) =
    let rest = arguments i xs in (if i == pile_of opt then a ∷ [] else []) ++ rest

nth-push :
    (i j : ℕ) (a : Text) (xss : List (List Text))
    → i < length xss
    → nth i (push j a xss) ≡ nth i xss ++ (if i == j then a ∷ [] else [])
nth-push i j a [] h = absurd (omega arith)
nth-push zero zero a (xs ∷ xss) h = refl
nth-push zero (suc j) a (xs ∷ xss) h = ground (arith, append-nil xs)
nth-push (suc i) zero a (xs ∷ xss) h = ground (arith, append-nil (nth i xss))
nth-push (suc i) (suc j) a (xs ∷ xss) h = ground (arith, nth-push i j a xss (omega arith))

module _ {T : Type 0} where
  dispatch-piles :
      (opt : Opt) (a : Text) (c : Cplr T)
      → goes_on opt ≡ true
      → (c' : Cplr T) × (dispatch opt a c ≡ next c') × (piles c' ≡ push (pile_of opt) a (piles c))
  unfolding dispatch
  dispatch-piles handled a c g = (_, refl, refl)
  dispatch-piles argument a c g = (_, refl, refl)
  dispatch-piles help a c g = cc
  dispatch-piles herald a c g = cc
  dispatch-piles version a c g = cc
  dispatch-piles verbose a c g = (_, refl, refl)
  dispatch-piles dump a c g = (_, refl, refl)
  dispatch-piles noexec a c g = (_, refl, refl)
  dispatch-piles pristine a c g = (_, refl, refl)
  dispatch-piles interactive a c g = (_, refl, refl)
  dispatch-piles compiler_flag a c g = (_, refl, refl)
  dispatch-piles machine_flag a c g = (_, refl, refl)
  dispatch-piles define a c g = (_, refl, refl)
  dispatch-piles undefine a c g = (_, refl, refl)
  dispatch-piles include_dir a c g = (_, refl, refl)
  dispatch-piles include a c g = (_, refl, refl)
  dispatch-piles sysinclude_dir a c g = (_, refl, refl)
  dispatch-piles sysinclude a c g = (_, refl, refl)
  dispatch-piles library_dir a c g = (_, refl, refl)
  dispatch-piles library a c g = (_, refl, refl)
  dispatch-piles pkg a c g = (_, refl, refl)
  dispatch-piles before a c g = (_, refl, refl)
  dispatch-piles after a c g = (_, refl, refl)
  dispatch-piles toplevel a c g = (_, refl, refl)
  dispatch-piles source a c g = (_, refl, refl)
  dispatch-piles output a c g = (_, refl, refl)
  dispatch-piles program_args a c g = cc
  dispatch-piles missing a c g = cc
  dispatch-piles unknown a c g = cc

  -- Each pile holds what it held and then the arguments for it.
  abbrev pub Filled : Cplr T → List (Opt × (Text × ℕ)) → Cplr T → Type 0
  Filled c xs y = (i : ℕ) → i < 13 → nth i (piles y) ≡ nth i (piles c) ++ arguments i xs

  parse_options-Filled :
      (xs : List (Opt × (Text × ℕ))) (g : Getopt) (c : Cplr T)
      → All GoesOn xs
      → (y : Cplr T) × (parse_options (founds xs g) c ≡ parse_options g y) × Filled c xs y
  unfolding parse_options
  parse_options-Filled [] g c h = (c, refl, λ i k. sym (append-nil (nth i (piles c))))
  parse_options-Filled ((opt, (a, k)) ∷ xs) g c h =
      let (c', e, p) = dispatch-piles opt a c h.0 in
      let (y, r, f) = parse_options-Filled xs g c' h.1 in
      (
        y,
        rw (parse_options, e) r,
        λ i l.
            f i l
            ∙ (ap (λ xss. nth i xss ++ arguments i xs) p
                ∙ (ap (λ ys. ys ++ arguments i xs) (nth-push i (pile_of opt) a (piles c) l)
                    ∙ append_assoc (nth i (piles c)) (if i == pile_of opt then a ∷ [] else [])
                        (arguments i xs))),
      )

  -- A command line whose options all let the loop go on, that is without help, herald, version,
  -- the start of the program's arguments and errors: the result is 0, the program's arguments
  -- begin where `getopt_long` has ended, and each pile but the definitions holds what it held and
  -- then the arguments of its options in their order; the arguments of -m go to the pile of -f.
  pub cplr_optparse-Filled :
      (xs : List (Opt × (Text × ℕ))) (n argc : ℕ) (argv : List Text) (c : Cplr T)
      → All GoesOn xs
      → (y : Cplr T) × (cplr_optparse (founds xs (ended n)) argc argv c ≡ (0, y))
        × (y.argp ≡ n)
        × Filled c xs y
  unfolding cplr_optparse parse_options
  cplr_optparse-Filled xs n argc argv c h =
      let d : Cplr T = record c { argc = argc; argv = argv } in
      let (y, e, f) = parse_options-Filled xs (ended n) d h in (record y { argp = n }, e, refl, f)

  -- At the first option that does not let the loop go on, the result is 2 for help, herald and
  -- version, 1 for an error, and else 0, where the program's arguments begin behind the option;
  -- the options behind it do nothing, and the piles are filled by those in front of it.
  pub cplr_optparse-ends_with :
      (xs : List (Opt × (Text × ℕ))) (opt : Opt) (a : Text) (k : ℕ) (rest : Getopt) (argc : ℕ)
      (argv : List Text) (c : Cplr T)
      → All GoesOn xs
      → goes_on opt ≡ false
      → (y : Cplr T) × (cplr_optparse (founds xs (found opt a k rest)) argc argv c
          ≡ (ends_with opt, y))
        × (ends_with opt ≡ 0 → y.argp ≡ k)
        × Filled c xs y
  unfolding cplr_optparse parse_options
  cplr_optparse-ends_with xs opt a k rest argc argv c h stop =
      let d : Cplr T = record c { argc = argc; argv = argv } in
      let (y, e, f) = parse_options-Filled xs (found opt a k rest) d h in
      let (z, r, m, p) = last opt y stop in (z, e ∙ r, m, λ i l. ap (nth i) p ∙ f i l)
    where
      last :
          (opt : Opt) (y : Cplr T)
          → goes_on opt ≡ false
          → (z : Cplr T) × (parse_options (found opt a k rest) y ≡ (ends_with opt, z))
            × (ends_with opt ≡ 0 → z.argp ≡ k)
            × (piles z ≡ piles y)
      last help y s = (y, refl, (λ e. cc), refl)
      last herald y s = (y, refl, (λ e. cc), refl)
      last version y s = (y, refl, (λ e. cc), refl)
      last missing y s = (y, refl, (λ e. cc), refl)
      last unknown y s = (y, refl, (λ e. cc), refl)
      last program_args y s = (record y { argp = k }, refl, (λ e. refl), refl)
      last _ y s = cc
