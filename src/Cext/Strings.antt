-- ===== src/Cext/Strings.antt =====
-- source/cext_string.c: tests for a prefix and a suffix, and formatting with a limit.
use cplr.Base.{
  ℕ, zero, suc, ◌-◌, ◌≤◌, ◌<◌, ◌≡◌, ◌↔◌, ◌∙◌, refl, ap, Bool, true, false, Option, none, some, [],
  ◌∷◌, ◌++◌, arith, ◌==◌, ltb, if◌then◌else◌, length, length-append, length-drop, drop, Bool-cases,
  inl, inr,
}
use cplr.Base.Outcome.{Outcome, done, crash}
use cplr.Base.Text.{Text, begins_with}
use cplr.State.Context.{Ptr, null}
use cplr.Cext.Memory.{Memory, Allocator, strdup}

-- `strncmp(str, pfx, strlen(pfx)) == 0`
unfoldable pub strprefix : Text → Text → Bool
unfolding begins_with
strprefix str pfx = begins_with str pfx

-- Neither argument is NULL where the program calls it.
unfoldable pub strsuffix : Text → Text → Bool
unfolding begins_with
strsuffix str suf =
    if ltb (length str) (length suf)
    then false
    else begins_with (drop (length str - length suf) str) suf

abbrev pub int_max : ℕ
int_max = 2147483647

-- `vmsnprintf` for a format and arguments that make `text`. Over INT_MAX bytes `vsnprintf` fails,
-- and the buffer that is returned has no bytes; at INT_MAX bytes the `int` in `malloc(len + 1)`
-- overflows, unless the limit is less.
unfoldable pub vmsnprintf : ℕ → Text → Outcome (Option Text)
vmsnprintf limit text =
    let limit' = if ltb int_max limit then int_max else limit in
    let len = length text in
    if ltb int_max len
    then crash
    else (if ltb limit' len
        then done none
        else (if len == int_max then crash else done (some text)))

-- `msnprintf` where the text has fewer than INT_MAX bytes, as with the argument of an option.
unfoldable pub msnprintf : ℕ → Text → Option Text
msnprintf limit text = if ltb limit (length text) then none else some text

-- `xstrdup`, which copies no NULL.
unfoldable pub xstrdup : Allocator → Ptr → Memory → Outcome (Ptr × Memory)
unfolding strdup
xstrdup A s m = if s == null then done (null, m) else strdup A s m

begins_with-append : (p r : Text) → begins_with (p ++ r) p ≡ true
unfolding begins_with
begins_with-append [] r = refl
begins_with-append (c ∷ p) r = ground (arith, begins_with-append p r)

begins_with_self : (t : Text) → begins_with t t ≡ true
unfolding begins_with
begins_with_self [] = refl
begins_with_self (c ∷ t) = ground (arith, begins_with_self t)

pub begins_with-split : (s p : Text) → begins_with s p ≡ true → (r : Text) × (s ≡ p ++ r)
unfolding begins_with
begins_with-split s [] h = (s, refl)
begins_with-split [] (b ∷ p) h = cc
begins_with-split (a ∷ s) (b ∷ p) h =
    let (r, e) = begins_with-split s p (ground arith) in let same : a ≡ b = ground arith in (r, cc)

-- `strprefix` holds exactly of the texts that go on from the prefix.
pub strprefix_iff : (s p : Text) → (strprefix s p ≡ true) ↔ ((r : Text) × (s ≡ p ++ r))
unfolding strprefix
strprefix_iff s p = (begins_with-split s p, λ (r, e). rw e (begins_with-append p r))

drop-append : (p t : Text) → drop (length p) (p ++ t) ≡ t
drop-append [] t = refl
drop-append (c ∷ p) t = drop-append p t

drop-split : (n : ℕ) (s : Text) → n ≤ length s → (p : Text) × (s ≡ p ++ drop n s) × (length p ≡ n)
drop-split zero s h = ([], refl, refl)
drop-split (suc n) [] h = absurd (omega arith)
drop-split (suc n) (c ∷ s) h =
    let (p, e, l) = drop-split n s (omega arith) in (c ∷ p, ap (◌∷◌ c) e, ap suc l)

begins_with_whole : (s t : Text) → length s ≡ length t → begins_with s t ≡ true → s ≡ t
unfolding begins_with
begins_with_whole [] [] l h = refl
begins_with_whole (a ∷ s) [] l h = absurd (omega arith)
begins_with_whole [] (b ∷ t) l h = cc
begins_with_whole (a ∷ s) (b ∷ t) l h =
    let same : a ≡ b = ground arith in
    let rest = begins_with_whole s t (omega arith) (ground arith) in cc

strsuffix-split : (s t : Text) → strsuffix s t ≡ true → (p : Text) × (s ≡ p ++ t)
strsuffix-split s t h = elim (Bool-cases (ltb (length s) (length t))) [
  | inl short ↦ let no_suffix : false ≡ true = unfold strsuffix in rw short at h in cc
  | inr long ↦
      let tested : begins_with (drop (length s - length t) s) t ≡ true =
        unfold strsuffix in rw long at h in
      let (p, e, l) = drop-split (length s - length t) s (omega arith) in
      let same =
        begins_with_whole (drop (length s - length t) s) t
          (length-drop (length s - length t) s ∙ ground arith) tested in
      (p, e ∙ ap (λ u. p ++ u) same)
]

strsuffix-append : (p t : Text) → strsuffix (p ++ t) t ≡ true
strsuffix-append p t =
    let len = length-append p t in
    let long : ltb (length (p ++ t)) (length t) ≡ false = ground (arith, len) in
    let skip : length (p ++ t) - length t ≡ length p = omega (arith, len) in
    unfold strsuffix in rw (long, skip, drop-append p t) (begins_with_self t)

-- `strsuffix` holds exactly of the texts that end in the suffix.
pub strsuffix_iff : (s t : Text) → (strsuffix s t ≡ true) ↔ ((p : Text) × (s ≡ p ++ t))
strsuffix_iff s t = (strsuffix-split s t, λ (p, e). rw e (strsuffix-append p t))

-- Below INT_MAX bytes `vmsnprintf` returns what `msnprintf` says; from there on it does not, but for
-- a text of INT_MAX bytes over its limit.
vmsnprintf-msnprintf :
    (limit : ℕ) (text : Text)
    → (length text < int_max → vmsnprintf limit text ≡ done (msnprintf limit text))
      × (int_max < length text → vmsnprintf limit text ≡ crash)
      × (length text ≡ int_max → int_max ≤ limit → vmsnprintf limit text ≡ crash)
unfolding vmsnprintf msnprintf
vmsnprintf-msnprintf limit text = (λ h. ground arith, λ h. ground arith, λ h k. ground arith)

pub msnprintf_lem :
    (limit : ℕ) (text : Text) → length text ≤ limit → msnprintf limit text ≡ some text
unfolding msnprintf
msnprintf_lem limit text h = ground arith
