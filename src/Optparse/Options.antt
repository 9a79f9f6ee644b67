-- ===== src/Optparse/Options.antt =====
-- `cplr_optparse`, with what `getopt_long` returns as a parameter. What help, herald and version
-- print stands in Help.
use cplr.Base.{ℕ, ◌+◌, true, some, List, ◌++◌, snoc}
use cplr.Base.Text.{Text, lit}
use cplr.Cext.Strings.{msnprintf}
use cplr.State.Context.{Cplr}

-- What `getopt_long` returns for `shortopts` and `longopts`: 0, 1, the letter of an option, ':'
-- and '?'. A constructor bears the option's meaning.
pub data Opt : Type 0 where
  handled argument : Opt
  help herald version : Opt
  verbose dump noexec pristine interactive : Opt
  compiler_flag machine_flag : Opt
  define undefine include_dir include sysinclude_dir sysinclude : Opt
  library_dir library pkg : Opt
  before after toplevel : Opt
  source output : Opt
  program_args : Opt
  missing unknown : Opt

-- The calls of `getopt_long` one after the other: each returns an option with `optarg` and leaves
-- `optind`, until one returns -1.
pub data Getopt : Type 0 where
  ended : (optind : ℕ) → Getopt
  found : Opt → (optarg : Text) → (optind : ℕ) → Getopt → Getopt

-- How the switch is left: to the next call, or by `goto` to `done`, to `err` or to one of the
-- three that print.
pub data Turn (T : Type 0) : Type 0 where
  next : Cplr T → Turn T
  finished failed shown : Turn T

module _ {T : Type 0} where
  unfoldable pub dispatch : Opt → Text → Cplr T → Turn T
  unfolding msnprintf
  dispatch handled optarg c = next c
  dispatch argument optarg c = next (record c { stms = snoc c.stms optarg })
  dispatch help optarg c = shown
  dispatch herald optarg c = shown
  dispatch version optarg c = shown
  dispatch verbose optarg c = next (record c { verbosity = c.verbosity + 1 })
  dispatch dump optarg c = next (record c { dump = c.dump + 1 })
  dispatch noexec optarg c = next (record c { flag = record c.flag { norun = true } })
  dispatch pristine optarg c = next (record c { flag = record c.flag { nodefaults = true } })
  dispatch interactive optarg c = next (record c { flag = record c.flag { interactive = true } })
  dispatch compiler_flag optarg c = next (record c { optf = snoc c.optf optarg })
  dispatch machine_flag optarg c = next (record c { optf = snoc c.optf optarg })
  dispatch define optarg c =
      next (record c { defs = snoc c.defs (msnprintf 1024 (lit "-D" ++ optarg)) })
  dispatch undefine optarg c =
      next (record c { defs = snoc c.defs (msnprintf 1024 (lit "-U" ++ optarg)) })
  dispatch include_dir optarg c = next (record c { incdirs = snoc c.incdirs optarg })
  dispatch include optarg c = next (record c { incs = snoc c.incs optarg })
  dispatch sysinclude_dir optarg c = next (record c { sysdirs = snoc c.sysdirs optarg })
  dispatch sysinclude optarg c = next (record c { syss = snoc c.syss optarg })
  dispatch library_dir optarg c = next (record c { libdirs = snoc c.libdirs optarg })
  dispatch library optarg c = next (record c { libs = snoc c.libs optarg })
  dispatch pkg optarg c = next (record c { pkgs = snoc c.pkgs optarg })
  dispatch before optarg c = next (record c { befs = snoc c.befs optarg })
  dispatch after optarg c = next (record c { afts = snoc c.afts optarg })
  dispatch toplevel optarg c = next (record c { tlfs = snoc c.tlfs optarg })
  dispatch source optarg c = next (record c { srcs = snoc c.srcs optarg })
  dispatch output optarg c =
      next (record c { flag = record c.flag { norun = true }; out = some optarg })
  dispatch program_args optarg c = finished
  dispatch missing optarg c = failed
  dispatch unknown optarg c = failed

  -- The loop, and the result.
  unfoldable pub parse_options : Getopt → Cplr T → ℕ × Cplr T
  unfolding dispatch
  parse_options (ended optind) c = (0, record c { argp = optind })
  parse_options (found opt optarg optind rest) c = elim (dispatch opt optarg c) [
    | next c' ↦ parse_options rest c'
    | finished ↦ (0, record c { argp = optind })
    | failed ↦ (1, c)
    | shown ↦ (2, c)
  ]

  unfoldable pub cplr_optparse : Getopt → ℕ → List Text → Cplr T → ℕ × Cplr T
  unfolding parse_options
  cplr_optparse getopt argc argv c = parse_options getopt (record c { argc = argc; argv = argv })
