-- ===== src/Session/Whole.antt =====
-- The program from its start to its end.
use cplr.Base.{ℕ, ◌≤◌, ◌≡◌, ◌≢◌, Bool, true, false, none, some, List, length}
use cplr.Base.Text.{Text}
use cplr.State.Context.{Cplr, Ptr, null}
use cplr.State.Chain.{Store}
use cplr.Tcc.{Tcc}
use cplr.Host.{Host}
use cplr.Optparse.Options
use cplr.Optparse.Options.{Opt, Getopt, ended, found, Turn, next}
use cplr.Phases.Prepares.{Prints}
use cplr.Phases.Ends.{Ends}
use cplr.Phases.Sound.{Settled}
use cplr.Session.Interact.{Event}

-- The options whose argument becomes a definition.
abbrev pub defines : Opt → Bool
defines Options.define = true
defines Options.undefine = true
defines _ = false

-- No definition is longer than `msnprintf` is allowed to make it.
abbrev pub ShortDefs : Getopt → Type 0
ShortDefs (ended n) = Unit
ShortDefs (found opt a k rest) = (defines opt ≡ true → length a ≤ 1022) × ShortDefs rest

module _ {T : Type 0} (l : Ptr × (Ptr × (Ptr × ℕ))) where
  -- A piler that has not been prepared.
  abbrev Unprepared : Cplr T → Type 0
  Unprepared c = (c.flag.prepared ≡ false) × Settled l c

  abbrev TurnUnprepared : Turn T → Type 0
  TurnUnprepared (next c) = Unprepared c
  TurnUnprepared _ = Unit

module _ (H : Host) (K : Tcc) (prints : Prints H) {t : K.State} (new : K.new ≡ some t) where
  module _ (fuel : ℕ) (es : List Event) (self : Ptr) (s : Store K.State) (ne : self ≢ null)
      (unused : s self ≡ none) where
    -- The store of the pilers is what it was before the program.
    abbrev pub Restored : ℕ × Store K.State → Type 0
    Restored (r, s') = (a : Ptr) → s' a ≡ s a

    -- The links of the first piler.
    abbrev root : Ptr × (Ptr × (Ptr × ℕ))
    root = (self, (null, (null, 0)))
