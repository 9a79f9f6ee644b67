-- ===== src/Tcc.antt =====
-- libtcc, which the program calls and which is not part of its sources: a type of compiler states
-- and the functions of libtcc.h that are called. A function that can fail returns its `int` beside
-- the new state; the callers only test it against 0 or pass it on. `run` runs the program in this
-- process: it may return, end the process (`exits`, `aborts`), go wrong (`crash`) or never end
-- (`out_of_fuel`). `reports` says whether libtcc has called the error function in the calls that have
-- led to a state.
use cplr.Base.{ℕ, Bool, Option, List}
use cplr.Base.Outcome.{Outcome}
use cplr.Base.Text.{Text}

-- `TCC_OUTPUT_MEMORY` and `TCC_OUTPUT_EXE`
pub data OutputType : Type 0 where
  memory exe : OutputType

pub record Tcc : Type 1 where
  pub State : Type 0
  pub new : Option State
  pub set_error_func : State → State
  pub set_lib_path : State → Text → State
  pub set_output_type : State → OutputType → State × ℕ
  pub set_options : State → Text → State × ℕ
  pub add_sysinclude_path : State → Text → State × ℕ
  pub add_include_path : State → Text → State × ℕ
  pub add_library_path : State → Text → State × ℕ
  pub add_library : State → Text → State × ℕ
  pub add_file : State → Text → State × ℕ
  pub compile_string : State → Text → State × ℕ
  pub list_symbols : State → List (Text × ℕ)
  pub add_symbol : State → Text → ℕ → State × ℕ
  pub output_file : State → Text → State × ℕ
  pub run : State → ℕ → List Text → Outcome (State × ℕ)
  pub reports : State → Bool
