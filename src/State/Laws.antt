-- ===== src/State/Laws.antt =====
-- What the functions of source/cplr_state.c keep and what they clear, and where
-- `cplr_find_syms` stops.
use cplr.Base.{
  ℕ, ◌+◌, ◌≡◌, ◌≢◌, refl, true, false, Option, none, some, List, [], ◌∷◌, ◌++◌, arith, is_some, All,
}
use cplr.Base.Outcome.{done, crash, Returns, returns}
use cplr.State.Enums.{libtcc}
use cplr.State.Context.{Cplr, Ptr, null, cplr_empty}
use cplr.State.Clone.{clone_strings, copy_fields, cplr_clone}
use cplr.State.Chain.{Store, write, load, chained, cplr_chain, cplr_free}

-- No string of a pile is `NULL`.
abbrev pub NoNull {ℓ} : {A : Type ℓ} → List (Option A) → Type 0
NoNull = All (λ o. is_some o ≡ true)

pub clone_strings_lem : (xs : List (Option (List ℕ))) → NoNull xs → clone_strings xs ≡ done xs
unfolding clone_strings
clone_strings_lem [] h = refl
clone_strings_lem (none ∷ xs) h = cc (h.0)
clone_strings_lem (some s ∷ xs) h = rw (clone_strings_lem xs h.1)

clone_strings-crash :
    (before after : List (Option (List ℕ))) → clone_strings (before ++ none ∷ after) ≡ crash
unfolding clone_strings
clone_strings-crash [] after = refl
clone_strings-crash (none ∷ before) after = refl
clone_strings-crash (some s ∷ before) after = rw (clone_strings-crash before after)

module _ {T : Type 0} where
  pub load_lem : (s : Store T) (p : Ptr) {c : Cplr T} → p ≢ null → s p ≡ some c → load s p ≡ done c
  unfolding load
  load_lem s p ne e = ground arith

  pub cplr_clone_lem :
      (self : Ptr) (c : Cplr T)
      → NoNull c.defs
      → cplr_clone self c ≡ done (copy_fields self c c.defs)
  unfolding cplr_clone
  cplr_clone_lem self c h = rw (clone_strings_lem c.defs h)

  pub cplr_chain_lem :
      (fresh at : Ptr) (s : Store T) {c : Cplr T}
      → at ≢ null
      → s at ≡ some c
      → NoNull c.defs
      → cplr_chain fresh at s
        ≡ done (
            write
              (write s fresh (some (chained at c (copy_fields fresh c c.defs))))
              at
              (some (record c { c_next = fresh })))
  unfolding cplr_chain
  cplr_chain_lem fresh at s {c} ne e h = rw (load_lem s at ne e, cplr_clone_lem fresh c h)

-- `n` has the settings and the stable piles of `c`.
pub record KeepsStable {T : Type 0} (c n : Cplr T) : Type 0 where
  pub args : (n.argc ≡ c.argc) × (n.argv ≡ c.argv) × (n.argp ≡ c.argp)
  pub levels : (n.dump ≡ c.dump) × (n.verbosity ≡ c.verbosity) × (n.target ≡ c.target)
  pub defines : (n.defdef ≡ c.defdef) × (n.defs ≡ c.defs)
  pub includes : (n.defsys ≡ c.defsys) × (n.syss ≡ c.syss) × (n.incs ≡ c.incs)
  pub dirs : (n.sysdirs ≡ c.sysdirs) × (n.incdirs ≡ c.incdirs) × (n.libdirs ≡ c.libdirs)
  pub libraries : (n.libs ≡ c.libs) × (n.pkgs ≡ c.pkgs)
  pub declarations : n.tlds ≡ c.tlds

-- `n` stands behind `c`, which is at `at`, and has not been prepared, compiled, loaded or run.
pub record Follows {T : Type 0} (at : Ptr) (c n : Cplr T) : Type 0 where
  pub index : n.c_index ≡ c.c_index + 1
  pub first : n.c_first ≡ c.c_first
  pub prev : n.c_prev ≡ at
  pub not_run : (n.flag.prepared ≡ false) × (n.flag.compiled ≡ false) × (n.flag.executed ≡ false)
  pub not_loaded : (n.flag.loaded ≡ false) × (n.flag.finished ≡ false) × (n.tcc ≡ none)
  pub modes : (n.flag.norun ≡ c.flag.norun) × (n.flag.interactive ≡ c.flag.interactive)
  pub stages :
      (n.flag.nodefaults ≡ c.flag.nodefaults)
      × (n.flag.nocompile ≡ c.flag.nocompile)
      × (n.flag.nolink ≡ c.flag.nolink)
      × (n.flag.fork ≡ c.flag.fork)
  pub generated_kept : n.flag.generated ≡ c.flag.generated
  pub fresh_fields :
      (n.backend ≡ libtcc) × (n.optf ≡ []) × (n.optm ≡ []) × (n.tccerr ≡ false) × (n.c_next ≡ null)
  pub no_code : (n.g_codebuf ≡ none) × (n.g_dumpbuf ≡ none)
  pub memory_output : n.out ≡ none
  pub stable : KeepsStable c n
  pub empty : cplr_empty n ≡ true

-- What `cplr_chain` leaves in memory.
pub record Chains {T : Type 0} (fresh at : Ptr) (c : Cplr T) (s s' : Store T) : Type 0 where
  pub added : (n : Cplr T) × (s' fresh ≡ some n) × Follows at c n
  pub linked : s' at ≡ some (record c { c_next = fresh })
  pub others : (p : Ptr) → p ≢ fresh → p ≢ at → s' p ≡ s p

module _ {T : Type 0} where
  chained-Follows :
      (self at : Ptr) (c : Cplr T) → Follows at c (chained at c (copy_fields self c c.defs))
  unfolding cplr_empty
  chained-Follows self at c = record {
    index = refl;
    first = refl;
    prev = refl;
    not_run = (refl, refl, refl);
    not_loaded = (refl, refl, refl);
    modes = (refl, refl);
    stages = (refl, refl, refl, refl);
    generated_kept = refl;
    fresh_fields = (refl, refl, refl, refl, refl);
    no_code = (refl, refl);
    memory_output = refl;
    stable = record {
      args = (refl, refl, refl);
      levels = (refl, refl, refl);
      defines = (refl, refl);
      includes = (refl, refl, refl);
      dirs = (refl, refl, refl);
      libraries = (refl, refl);
      declarations = refl;
    };
    empty = refl;
  }

  written-Chains :
      (fresh at : Ptr) (s : Store T) {c : Cplr T}
      → fresh ≢ at
      → Chains fresh at c s (
          write
            (write s fresh (some (chained at c (copy_fields fresh c c.defs))))
            at
            (some (record c { c_next = fresh })))
  unfolding write
  written-Chains fresh at s {c} apart = record {
    added = (chained at c (copy_fields fresh c c.defs), ground arith, chained-Follows fresh at c);
    linked = ground arith;
    others = λ p h₁ h₂. ground arith;
  }

  -- `cplr_chain` on a piler none of whose definitions is NULL, with an address that the
  -- allocation takes from unused memory: it returns, and the new piler stands behind the old one.
  -- It has the arguments, the levels, the target and the stable piles of the old one, and its flags
  -- but those for prepared, compiled, loaded, executed and finished, which are cleared; so the
  -- flag for generated stays. It has nothing to run, no compiler, no code and no error flag;
  -- `optf` and `optm` are empty, the back end is libtcc and the output is to memory. The old piler
  -- only gets the link to the new one, and no other piler changes.
  pub cplr_chain-Chains :
      (fresh at : Ptr) (s : Store T) {c : Cplr T}
      → at ≢ null
      → s at ≡ some c
      → fresh ≢ at
      → NoNull c.defs
      → Returns (Chains fresh at c s) (cplr_chain fresh at s)
  cplr_chain-Chains fresh at s {c} ne e apart h =
      rw (cplr_chain_lem fresh at s ne e h) (returns (written-Chains fresh at s apart))

  -- `cplr_chain` duplicates every definition, so it fails as soon as one of them is NULL.
  pub cplr_chain-crash :
      (fresh at : Ptr) (s : Store T) {c : Cplr T} (before after : List (Option (List ℕ)))
      → at ≢ null
      → s at ≡ some c
      → c.defs ≡ before ++ none ∷ after
      → cplr_chain fresh at s ≡ crash
  unfolding cplr_chain
  cplr_chain-crash fresh at s {c} before after ne e d =
      rw (load_lem s at ne e, d, clone_strings-crash before after)

  -- `cplr_free` on an allocated piler takes that one away and leaves the others.
  pub cplr_free_lem :
      (at : Ptr) (s : Store T) {c : Cplr T}
      → at ≢ null
      → s at ≡ some c
      → cplr_free at s ≡ done (write s at none)
  unfolding cplr_free
  cplr_free_lem at s ne e = rw (load_lem s at ne e)
