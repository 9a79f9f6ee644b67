-- ===== src/State/Clone.antt =====
-- `cplr_clone` of source/cplr_state.c, with `l_clone` on the piles.
use cplr.Base.{Option, none, some, List, [], ◌∷◌}
use cplr.Base.Outcome.{Outcome, done, crash, ◌>>=◌}
use cplr.Base.Text.{Text}
use cplr.State.Context.{Cplr, Ptr, cplr_new}

-- `l_clone` of a pile whose strings may be `NULL`: `value_clone` duplicates each string, and
-- `strdup(NULL)` is undefined.
unfoldable pub clone_strings : List (Option Text) → Outcome (List (Option Text))
clone_strings [] = done []
clone_strings (none ∷ xs) = crash
clone_strings (some s ∷ xs) = do rest ← clone_strings xs; done (some s ∷ rest)

module _ {T : Type 0} where
  -- The assignments and the `l_clone` calls of `cplr_clone`, once `defs` is copied.
  abbrev pub copy_fields : (self : Ptr) → Cplr T → List (Option Text) → Cplr T
  copy_fields self c defs = record (cplr_new self) {
    argc = c.argc;
    argv = c.argv;
    argp = c.argp;
    flag = c.flag;
    dump = c.dump;
    verbosity = c.verbosity;
    target = c.target;
    out = none;
    g_codebuf = none;
    g_dumpbuf = none;
    defdef = c.defdef;
    defsys = c.defsys;
    sysdirs = c.sysdirs;
    incdirs = c.incdirs;
    libdirs = c.libdirs;
    defs = defs;
    syss = c.syss;
    incs = c.incs;
    libs = c.libs;
    pkgs = c.pkgs;
    srcs = c.srcs;
    tlds = c.tlds;
    tlfs = c.tlfs;
    stms = c.stms;
    befs = c.befs;
    afts = c.afts;
  }

  unfoldable pub cplr_clone : (self : Ptr) → Cplr T → Outcome (Cplr T)
  unfolding clone_strings
  cplr_clone self c = do defs ← clone_strings c.defs; done (copy_fields self c defs)
