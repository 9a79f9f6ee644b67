-- ===== src/Host.antt =====
-- What the program asks of the system around it: `system`, `popen`, `getenv`, `fork` and
-- `waitpid`, as a parameter.
use cplr.Base.{ℕ, Bool, Option, List}
use cplr.Base.Text.{Text}

-- One return of `waitpid`: an error and whether it is EAGAIN, or a process and its status.
pub data Wait : Type 0 where
  failed : (again : Bool) → Wait
  reaped : (pid status : ℕ) → Wait

-- What `fork` returns, and for the parent, what the calls of `waitpid` return after it.
pub data Fork : Type 0 where
  no_fork : Fork
  in_child : Fork
  in_parent : (pid : ℕ) → List Wait → Fork

-- `system` gives a status, or `none` for -1. `popen` gives what the command prints, or `none` for
-- NULL. The two directories are `getenv("CPLR_TINYCC_LIBDIR")`, and the constant of that name
-- unless the library is an external one.
pub record Host : Type 0 where
  pub system : Text → Option ℕ
  pub popen : Text → Option Text
  pub getenv_libdir : Option Text
  pub configured_libdir : Option Text
  pub fork : Fork
