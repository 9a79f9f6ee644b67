-- ===== src/State/Struct/Steps.antt =====
-- A session on pilers in memory: what source/cplr_interact.c chains and frees, and the texts that
-- source/cplr_command.c puts into piles.
use cplr.Base.{ℕ, List, [], ◌∷◌}
use cplr.Base.Outcome.{Outcome, done, ◌>>=◌}
use cplr.State.Context.{Ptr}
use cplr.Cext.Memory.{Memory, Allocator}
use cplr.State.Struct.{Fields, Pile, free_piler, chain_piler}
use cplr.State.Struct.Grow.{pile_up}
use cplr.Base.Text.{Text}

-- The pilers that are chained behind one, the last one first.
abbrev pub Pilers : Type 0
Pilers = List (Ptr × Fields)

-- What a session does with the last piler: it is chained, or a text is put at the end of a pile.
pub data Step : Type 0 where
  chain : Step
  piled : Pile → Text → Step

-- The steps of a session behind its first piler; `n` and `c` are the last one.
unfoldable pub session_steps :
    Allocator
    → ℕ
    → List Step
    → (n : Ptr) → (c : Fields) → Pilers
    → Memory
    → Outcome (Pilers × Memory)
unfolding chain_piler pile_up
session_steps A k [] n c ps m = done ((n, c) ∷ ps, m)
session_steps A k (chain ∷ ss) n c ps m = do
  ((n', c'), m') ← chain_piler A k c m
  session_steps A k ss n' c' ((n, c) ∷ ps) m'
session_steps A k (piled p t ∷ ss) n c ps m = do
  (c', m') ← pile_up A n p t c m
  session_steps A k ss n c' ps m'

-- The loop of `cplr_interact` that frees them, the last one first.
unfoldable pub free_pilers : ℕ → Pilers → Memory → Outcome Memory
unfolding free_piler
free_pilers k [] m = done m
free_pilers k ((n, c) ∷ ps) m = do m₁ ← free_piler k n c m; free_pilers k ps m₁

-- A session that starts on the piler `c` with a chain, from there to its end.
unfoldable pub chained_session : Allocator → ℕ → List Step → Fields → Memory → Outcome Memory
unfolding chain_piler session_steps free_pilers
chained_session A k ss c m = do
  ((n, d), m₁) ← chain_piler A k c m
  (ps, m₂) ← session_steps A k ss n d [] m₁
  free_pilers k ps m₂
