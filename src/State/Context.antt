-- ===== src/State/Context.antt =====
-- `struct cplr` of source/cplr.h, `cplr_new` and `cplr_empty`.
use cplr.Base.{ℕ, Bool, false, ◌&&◌, Option, none, List, [], is_empty}
use cplr.Base.Text.{Text}
use cplr.State.Enums.{Backend, libtcc, Flags, no_flags, Target, posix, GState, initial}

-- The address of a piler; 0 is `NULL`.
abbrev pub Ptr : Type 0
Ptr = ℕ

abbrev pub null : Ptr
null = 0

-- `struct cplr`. A pile is the list of its strings. A string of `defs` may be `NULL`, since
-- `msnprintf` returns that for a text over its limit. A stream is open or closed, and what is
-- written to it goes to its buffer.
pub record Cplr (T : Type 0) : Type 0 where
  pub flag : Flags
  pub dump : ℕ
  pub verbosity : ℕ
  pub backend : Backend
  pub target : Target
  pub out : Option Text
  pub argc : ℕ
  pub argv : List Text
  pub argp : ℕ
  pub c_index : ℕ
  pub c_first : Ptr
  pub c_prev : Ptr
  pub c_next : Ptr
  pub tcc : Option T
  pub tccerr : Bool
  pub g_state : GState
  pub g_prevline : ℕ
  pub g_prevfile : Option Text
  pub g_code : Bool
  pub g_dump : Bool
  pub g_codebuf : Option Text
  pub g_dumpbuf : Option Text
  pub optf : List Text
  pub optm : List Text
  pub defdef : List Text
  pub defsys : List Text
  pub sysdirs : List Text
  pub incdirs : List Text
  pub libdirs : List Text
  pub defs : List (Option Text)
  pub syss : List Text
  pub incs : List Text
  pub libs : List Text
  pub pkgs : List Text
  pub tlds : List Text
  pub srcs : List Text
  pub tlfs : List Text
  pub stms : List Text
  pub befs : List Text
  pub afts : List Text

module _ {T : Type 0} where
  -- `cplr_new`: `calloc` clears every field, and the new piler is at the address `self`.
  abbrev pub cplr_new : (self : Ptr) → Cplr T
  cplr_new self = record {
    flag = no_flags;
    dump = 0;
    verbosity = 0;
    backend = libtcc;
    target = posix;
    out = none;
    argc = 0;
    argv = [];
    argp = 0;
    c_index = 0;
    c_first = self;
    c_prev = null;
    c_next = null;
    tcc = none;
    tccerr = false;
    g_state = initial;
    g_prevline = 0;
    g_prevfile = none;
    g_code = false;
    g_dump = false;
    g_codebuf = none;
    g_dumpbuf = none;
    optf = [];
    optm = [];
    defdef = [];
    defsys = [];
    sysdirs = [];
    incdirs = [];
    libdirs = [];
    defs = [];
    syss = [];
    incs = [];
    libs = [];
    pkgs = [];
    tlds = [];
    srcs = [];
    tlfs = [];
    stms = [];
    befs = [];
    afts = [];
  }

  -- `cplr_empty`: there is nothing to run.
  unfoldable pub cplr_empty : Cplr T → Bool
  cplr_empty c =
      is_empty c.srcs && is_empty c.tlfs && is_empty c.stms && is_empty c.befs && is_empty c.afts
