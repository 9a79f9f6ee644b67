-- ===== src/Defaults.antt =====
-- source/cplr_defaults.c: what each target gets without being asked for.
use Prim.Native.Nat.{bit_and}
use cplr.Base.{
  ℕ, ◌≡◌, refl, ap, ◌∙◌, Bool, List, [], ◌∷◌, ◌++◌, append_assoc, ◌==◌, not, if◌then◌else◌,
}
use cplr.Base.Text.{Text, lit}
use cplr.State.Enums.{Target, posix, linux, target_code}
use cplr.State.Context.{Cplr}

abbrev pub basic_headers : List Text
basic_headers =
    lit "stdalign.h"
    ∷ lit "stdarg.h"
    ∷ lit "stdatomic.h"
    ∷ lit "stdbool.h"
    ∷ lit "stddef.h"
    ∷ lit "stdint.h"
    ∷ lit "stdnoreturn.h"
    ∷ []

abbrev pub posix_defines : List Text
posix_defines =
    lit "-D_DEFAULT_SOURCE" ∷ lit "-D_XOPEN_SOURCE=700" ∷ lit "-D_POSIX_SOURCE=200809L" ∷ []

abbrev pub posix_headers : List Text
posix_headers =
    lit "sys/stat.h"
    ∷ lit "sys/types.h"
    ∷ lit "sys/wait.h"
    ∷ lit "assert.h"
    ∷ lit "ctype.h"
    ∷ lit "errno.h"
    ∷ lit "fcntl.h"
    ∷ lit "inttypes.h"
    ∷ lit "libgen.h"
    ∷ lit "limits.h"
    ∷ lit "locale.h"
    ∷ lit "stdio.h"
    ∷ lit "stdlib.h"
    ∷ lit "string.h"
    ∷ lit "termios.h"
    ∷ lit "time.h"
    ∷ lit "unistd.h"
    ∷ lit "wchar.h"
    ∷ []

abbrev pub linux_headers : List Text
linux_headers =
    lit "sys/epoll.h" ∷ lit "sys/eventfd.h" ∷ lit "sys/inotify.h" ∷ lit "sys/signalfd.h" ∷ []

-- `a & b`
unfoldable pub shares_bit : Target → Target → Bool
shares_bit a b = not (bit_and (target_code a) (target_code b) == 0)

-- What is promised: the headers of ISO C, all headers, and the macros.
abbrev pub iso_headers : List Text
iso_headers =
    lit "stdalign.h"
    ∷ lit "stdarg.h"
    ∷ lit "stdatomic.h"
    ∷ lit "stdbool.h"
    ∷ lit "stddef.h"
    ∷ lit "stdint.h"
    ∷ lit "stdnoreturn.h"
    ∷ []

abbrev pub all_headers : List Text
all_headers =
    lit "stdalign.h"
    ∷ lit "stdarg.h"
    ∷ lit "stdatomic.h"
    ∷ lit "stdbool.h"
    ∷ lit "stddef.h"
    ∷ lit "stdint.h"
    ∷ lit "stdnoreturn.h"
    ∷ lit "sys/stat.h"
    ∷ lit "sys/types.h"
    ∷ lit "sys/wait.h"
    ∷ lit "assert.h"
    ∷ lit "ctype.h"
    ∷ lit "errno.h"
    ∷ lit "fcntl.h"
    ∷ lit "inttypes.h"
    ∷ lit "libgen.h"
    ∷ lit "limits.h"
    ∷ lit "locale.h"
    ∷ lit "stdio.h"
    ∷ lit "stdlib.h"
    ∷ lit "string.h"
    ∷ lit "termios.h"
    ∷ lit "time.h"
    ∷ lit "unistd.h"
    ∷ lit "wchar.h"
    ∷ lit "sys/epoll.h"
    ∷ lit "sys/eventfd.h"
    ∷ lit "sys/inotify.h"
    ∷ lit "sys/signalfd.h"
    ∷ []

abbrev pub source_macros : List Text
source_macros =
    lit "-D_DEFAULT_SOURCE" ∷ lit "-D_XOPEN_SOURCE=700" ∷ lit "-D_POSIX_SOURCE=200809L" ∷ []

all_together :
    (hs : List Text) → ((hs ++ basic_headers) ++ posix_headers) ++ linux_headers ≡ hs ++ all_headers
all_together hs =
    append_assoc (hs ++ basic_headers) posix_headers linux_headers
    ∙ append_assoc hs basic_headers (posix_headers ++ linux_headers)

module _ {T : Type 0} where
  unfoldable pub cplr_defaults_basic : Cplr T → Cplr T
  cplr_defaults_basic c = record c { defsys = c.defsys ++ basic_headers }

  unfoldable pub cplr_defaults_posix : Cplr T → Cplr T
  cplr_defaults_posix c = record c {
    defdef = c.defdef ++ posix_defines;
    defsys = c.defsys ++ posix_headers;
  }

  unfoldable pub cplr_defaults_linux : Cplr T → Cplr T
  cplr_defaults_linux c = record c { defsys = c.defsys ++ linux_headers }

  unfoldable pub cplr_defaults : Cplr T → ℕ × Cplr T
  unfolding cplr_defaults_basic cplr_defaults_posix cplr_defaults_linux
  cplr_defaults c =
      let basic = cplr_defaults_basic c in
      let with_posix = if shares_bit basic.target posix then cplr_defaults_posix basic else basic in
      (0, if shares_bit with_posix.target linux then cplr_defaults_linux with_posix else with_posix)

  -- What each target gets.
  abbrev pub defaults_for : Target → Cplr T → Cplr T
  defaults_for Target.none c = record c { defsys = c.defsys ++ iso_headers }
  defaults_for posix c = record c {
    defdef = c.defdef ++ source_macros;
    defsys = c.defsys ++ all_headers;
  }
  defaults_for linux c = record c {
    defdef = c.defdef ++ source_macros;
    defsys = c.defsys ++ all_headers;
  }

  -- A piler whose target is POSIX or Linux gets the three macros and all the headers, those of
  -- Linux included; one whose target is none gets the seven headers of ISO C only. All else is as
  -- before, and the result is 0.
  pub cplr_defaults-defaults_for : (c : Cplr T) → cplr_defaults c ≡ (0, defaults_for c.target c)
  unfolding cplr_defaults cplr_defaults_basic cplr_defaults_posix cplr_defaults_linux shares_bit
  cplr_defaults-defaults_for c = go c.target
    where
      grown : Target → List Text → ℕ × Cplr T
      grown t hs = (0, record c { target = t; defdef = c.defdef ++ posix_defines; defsys = hs })

      go :
          (t : Target)
          → cplr_defaults (record c { target = t }) ≡ (0, defaults_for t (record c { target = t }))
      go Target.none = refl
      go posix = ap (grown posix) (all_together c.defsys)
      go linux = ap (grown linux) (all_together c.defsys)
