-- ===== src/Base/Text.antt =====
-- Texts are lists of bytes with no terminator: the bytes of a C string before its NUL. The
-- functions of <string.h> and <ctype.h> that the sources use, in the C locale.
use Prim.Native.Char.{code}
use Prim.Native.String.{String}
use cplr.Base.Tests.{leb, ◌==◌}
use Prim.Native.Nat.{ℕ}
use mathlib.Core.Path.{◌≡◌, refl}
use mathlib.Core.Bool.{Bool, true, false, ◌&&◌, ◌||◌}
use mathlib.Core.List.{List, [], ◌∷◌}
use mathlib.Core.Logic.{◌↔◌}
use native.Mathlib.Omega.{arith}

abbrev pub Text : Type 0
Text = List ℕ

-- The bytes of a literal.
abbrev pub lit : String → Text
lit String.[] = []
lit (String.◌∷◌ c s) = code c ∷ lit s

-- `strcmp(s, t) == 0`
unfoldable pub text_eq : Text → Text → Bool
text_eq [] [] = true
text_eq (a ∷ s) (b ∷ t) = (a == b) && text_eq s t
text_eq _ _ = false

-- `strncmp(s, p, strlen(p)) == 0`, and `strstr(s, p) == s`
unfoldable pub begins_with : Text → Text → Bool
begins_with s [] = true
begins_with [] (b ∷ p) = false
begins_with (a ∷ s) (b ∷ p) = (a == b) && begins_with s p

-- `isspace`, `isgraph` and `iscntrl`
unfoldable pub is_space : ℕ → Bool
is_space c = (c == 32) || (leb 9 c && leb c 13)

unfoldable pub is_graph : ℕ → Bool
is_graph c = leb 33 c && leb c 126

unfoldable pub is_cntrl : ℕ → Bool
is_cntrl c = leb c 31 || (c == 127)

pub text_eq_refl : (s : Text) → text_eq s s ≡ true
unfolding text_eq
text_eq_refl [] = refl
text_eq_refl (a ∷ s) = ground (arith, text_eq_refl s)

pub text_eq_sound : (s t : Text) → text_eq s t ≡ true → s ≡ t
unfolding text_eq
text_eq_sound [] [] h = refl
text_eq_sound [] (b ∷ t) h = cc
text_eq_sound (a ∷ s) [] h = cc
text_eq_sound (a ∷ s) (b ∷ t) h = ground (arith, text_eq_sound s t)

pub text_eq_iff : (s t : Text) → (text_eq s t ≡ true) ↔ (s ≡ t)
text_eq_iff s t = (text_eq_sound s t, λ e. rw e (text_eq_refl t))

pub is_graph-not-is_space : (c : ℕ) → is_graph c ≡ true → is_space c ≡ false
unfolding is_graph is_space
is_graph-not-is_space c h = ground arith

pub is_space-not-is_graph : (c : ℕ) → is_space c ≡ true → is_graph c ≡ false
unfolding is_graph is_space
is_space-not-is_graph c h = ground arith
