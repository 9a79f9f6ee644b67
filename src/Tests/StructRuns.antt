-- ===== src/Tests/StructRuns.antt =====
-- A piler in memory with one library and a string for its file.
use cplr.Base.{List, map, ℕ, ◌≡◌, refl, none, some, [], ◌∷◌, inl, inr, arith}
use cplr.Base.Outcome.{done, ◌>>=◌, Returns}
use cplr.Base.Text.{Text, lit}
use cplr.State.Context.{Cplr, Ptr, null, cplr_new}
use cplr.State.Chain.{Store, write}
use cplr.Cext.Memory.{Memory, heap_text, node, piler, lookup, read_text}
use cplr.Cext.Value.Strings.{owned}
use cplr.Cext.List.Shape.{Entry, node_of, IsList}
use cplr.State.Struct.{Fields, Heads, head_at, libs, optf, managed, free_piler, no_fields}
use cplr.State.Struct.Frame.{Blocks, Short}
use cplr.State.Struct.Free.{Gives, IsHeld, holds, free_piler-Gives}
use cplr.State.Struct.Refines.{pile_of, StandFor}
use mathlib.Core.List.{reverse}
use cplr.Cext.List.Walk.{l_forward, l_backwards}
use cplr.State.Struct.Steps.{Step, chain, piled, chained_session}
use cplr.State.Struct.Layers.{chained_session-restores}
use cplr.State.Struct.{stms, befs}
use cplr.State.Struct.Walks.{walk-StandFor}
use cplr.Tests.Allocation.{bump}

abbrev library : Entry
library = record { place = 1200; kind = owned; str = 1300; text = lit "m" }

abbrev blocks : Blocks
blocks libs = library ∷ []
blocks _ = []

abbrev heads : Heads
heads libs = record { count = 1; first = 1200; last = 1200 }
heads _ = record { count = 0; first = null; last = null }

abbrev fields : Fields
fields = record no_fields { out = 1400; heads = heads }

-- The struct is at 1.
abbrev memory : Memory
memory =
    (1, some piler)
    ∷ (1200, some (node (node_of (head_at 1 libs) null null library)))
    ∷ (1300, some (heap_text (lit "m")))
    ∷ (1400, some (heap_text (lit "a.out")))
    ∷ []

no_nodes : {at : Ptr} → IsList memory at (heads optf) []
no_nodes = record { counted = refl; begins = refl; ends = refl; linked = tt; apart = tt }

one_node : IsList memory (head_at 1 libs) (heads libs) (library ∷ [])
one_node = record {
  counted = refl;
  begins = refl;
  ends = refl;
  linked = (omega arith, refl, omega arith, refl, tt);
  apart = (refl, (λ o. refl), tt);
}

memory-IsHeld : IsHeld memory 1 fields blocks
memory-IsHeld = record {
  self_ne_null = omega arith;
  block = refl;
  texts = (inr (lit "a.out", refl, refl), (inl refl, (inl refl, tt)));
  piles = (
    no_nodes,
    (
      no_nodes,
      (
        no_nodes,
        (
          no_nodes,
          (
            no_nodes,
            (
              no_nodes,
              (
                no_nodes,
                (
                  no_nodes,
                  (
                    one_node,
                    (
                      no_nodes,
                      (no_nodes, (no_nodes, (no_nodes, (no_nodes, (no_nodes, (no_nodes, tt)))))),
                    ),
                  ),
                ),
              ),
            ),
          ),
        ),
      ),
    ),
  );
  apart = (
    (λ a o. cc),
    (
      (λ a o. cc),
      (
        (λ a o. cc),
        (
          (λ a o. cc),
          (
            (λ a o. cc),
            (
              (λ a o. cc),
              (
                (λ a o. cc),
                (
                  (λ a o. cc),
                  (
                    (λ a o. refl),
                    (
                      (λ a o. cc),
                      (
                        (λ a o. cc),
                        (
                          (λ a o. cc),
                          ((λ a o. cc), ((λ a o. cc), ((λ a o. cc), ((λ a o. cc), tt)))),
                        ),
                      ),
                    ),
                  ),
                ),
              ),
            ),
          ),
        ),
      ),
    ),
  );
  texts_out = λ a h. ground arith;
}

memory-Short : Short 2 blocks managed
memory-Short = (
  omega arith,
  (
    omega arith,
    (
      omega arith,
      (
        omega arith,
        (
          omega arith,
          (
            omega arith,
            (
              omega arith,
              (
                omega arith,
                (
                  omega arith,
                  (
                    omega arith,
                    (
                      omega arith,
                      (omega arith, (omega arith, (omega arith, (omega arith, (omega arith, tt))))),
                    ),
                  ),
                ),
              ),
            ),
          ),
        ),
      ),
    ),
  ),
)

abbrev linked : Cplr ℕ
linked = record (cplr_new 1) { libs = lit "m" ∷ [] }

linked-StandFor : StandFor linked blocks managed
linked-StandFor = (
  refl,
  (
    refl,
    (
      refl,
      (
        refl,
        (
          refl,
          (
            refl,
            (refl, (refl, (refl, (refl, (refl, (refl, (refl, (refl, (refl, (refl, tt)))))))))),
          ),
        ),
      ),
    ),
  ),
)

abbrev store : Store ℕ
store = write (λ a. none) 1 (some linked)

free_piler-Gives_example :
    Returns (Gives (holds 1 fields blocks) memory) (free_piler 2 1 fields memory)
free_piler-Gives_example = free_piler-Gives memory 1 fields blocks memory-IsHeld 2 memory-Short

abbrev steps : List Step
steps = piled stms (lit "a = 1") ∷ piled libs (lit "z") ∷ chain ∷ piled befs (lit "b = 2") ∷ []

session_ran :
    (do m' ← chained_session bump 6 steps fields memory; read_text 1300 m') ≡ done (lit "m")
unfolding chained_session read_text
session_ran = refl

chained_session-restores_example :
    Returns
      (λ m'. (a : Ptr) → lookup a m' ≡ lookup a memory)
      (chained_session bump 6 steps fields memory)
chained_session-restores_example =
    chained_session-restores bump memory 1 fields blocks memory-IsHeld 2 6 steps memory-Short
      (omega arith) (refl, (refl, (tt, (refl, tt))))

walk-StandFor_example :
    (ts : List Text) × (l_forward 2 (fields.heads libs) memory ≡ done ts)
    × (l_backwards 2 (fields.heads libs) memory ≡ done (reverse ts))
    × (map some ts ≡ pile_of linked libs)
walk-StandFor_example =
    walk-StandFor memory 1 fields blocks memory-IsHeld linked 2 libs linked-StandFor memory-Short
      refl
