-- ===== src/State/Enums.antt =====
-- The enumerations of source/cplr.h.
use cplr.Base.{ℕ, Bool, false, ◌==◌}

-- `cplr_backend_t`
pub data Backend : Type 0 where
  cc libtcc : Backend

-- `cplr_flag_t`: a set of bits as one Boolean for each bit.
pub record Flags : Type 0 where
  pub nodefaults : Bool
  pub nocompile : Bool
  pub nolink : Bool
  pub norun : Bool
  pub fork : Bool
  pub interactive : Bool
  pub generated : Bool
  pub prepared : Bool
  pub compiled : Bool
  pub loaded : Bool
  pub executed : Bool
  pub finished : Bool

abbrev pub no_flags : Flags
no_flags = record {
  nodefaults = false;
  nocompile = false;
  nolink = false;
  norun = false;
  fork = false;
  interactive = false;
  generated = false;
  prepared = false;
  compiled = false;
  loaded = false;
  executed = false;
  finished = false;
}

-- `cplr_target_t`, with the numbers of the enumeration.
pub data Target : Type 0 where
  none posix linux : Target

abbrev pub target_code : Target → ℕ
target_code none = 0
target_code posix = 1
target_code linux = 3

-- `cplr_gstate_t`
pub data GState : Type 0 where
  initial comment internal preproc toplevel statement : GState

-- `c->g_state == nstate`
abbrev pub gstate_code : GState → ℕ
gstate_code initial = 0
gstate_code comment = 1
gstate_code internal = 2
gstate_code preproc = 3
gstate_code toplevel = 4
gstate_code statement = 5

abbrev pub same_gstate : GState → GState → Bool
same_gstate a b = gstate_code a == gstate_code b
