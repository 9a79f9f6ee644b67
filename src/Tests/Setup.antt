-- ===== src/Tests/Setup.antt =====
-- A compiler library that keeps a record of its calls, and pilers for the tests.
use cplr.Base.Outcome.{done}
use cplr.Base.{none, true, false, some, List, [], ◌∷◌, snoc}
use cplr.Base.Text.{Text, lit}
use cplr.State.Context.{Cplr, cplr_new}
use cplr.Tcc.{Tcc}
use cplr.Host.{Host, failed, reaped, in_parent}
use cplr.Phases.Prepares.{Prints}

-- Each call succeeds and is written down.
abbrev pub recorder : Tcc
recorder = record {
  State = List Text;
  new = some [];
  set_error_func = λ t. t;
  set_lib_path = λ t s. snoc t s;
  set_output_type = λ t o. (t, 0);
  set_options = λ t s. (snoc t s, 0);
  add_sysinclude_path = λ t s. (snoc t s, 0);
  add_include_path = λ t s. (snoc t s, 0);
  add_library_path = λ t s. (snoc t s, 0);
  add_library = λ t s. (snoc t s, 0);
  add_file = λ t s. (snoc t s, 0);
  compile_string = λ t s. (snoc t s, 0);
  list_symbols = λ t. (lit "_start", 1) ∷ (lit "main", 2) ∷ (lit "count", 3) ∷ [];
  add_symbol = λ t s a. (snoc t s, 0);
  output_file = λ t s. (snoc t s, 0);
  run = λ t argc argv. done (t, 0);
  reports = λ t. false;
}

-- The first piler, with a compiler.
abbrev pub with_compiler : Cplr (List Text)
with_compiler = record (cplr_new 1) { tcc = some [] }

-- A piler with a few piles.
abbrev pub with_piles : Cplr (List Text)
with_piles = record (cplr_new 1) {
  dump = 1;
  incs = lit "math.h" ∷ [];
  stms = lit "int i" ∷ lit "puts(\"x\")" ∷ [];
  afts = lit "a()" ∷ lit "b()" ∷ [];
}

-- pkg-config knows every package and prints `-la`; the child that is forked has the number 7.
abbrev pub host : Host
host = record {
  system = λ command. some 0;
  popen = λ command. some (lit "-la\n");
  getenv_libdir = none;
  configured_libdir = some (lit "/lib");
  fork = in_parent 7 (failed true ∷ reaped 5 1 ∷ reaped 7 3 ∷ []);
}

pub host-Prints : Prints host
host-Prints command h = cc h
