-- ===== src/Phases/Errors/Reports.antt =====
-- What the messages of a compiler look like.
use cplr.Base.{
  ℕ, ◌<◌, ◌≡◌, ◌≢◌, refl, sym, ap, ◌∙◌, Bool, true, false, some, List, [], ◌∷◌, ◌++◌, append_assoc,
  length, map, not, ◌||◌, is_empty, All, ◌==◌, if◌then◌else◌, arith,
}
use cplr.Base.Outcome.{Returns, returns, Returns-bind}
use cplr.Base.Text.{Text}
use cplr.State.Context.{Cplr, Ptr, null}
use cplr.Cext.Memory.{
  Memory, heap_text, lookup, lookup-write_self, Allocator, strdup, read_text, cext_free,
}
use cplr.Phases.Errors.{heading, cplr_tcc_error, report_all}
use cplr.Phases.Errors.Lines.{split_lines, filled, shown, print_message_lem}

-- A message with a line that is not empty, and fewer bytes than fuel.
abbrev pub IsMessage : ℕ → Memory → Ptr × Text → Type 0
IsMessage k m (p, s) =
    (lookup p m ≡ some (heap_text s)) × (filled (split_lines s) ≢ []) × (length s < k)

abbrev pub all_shown : List (Ptr × Text) → Text
all_shown [] = []
all_shown ((p, s) ∷ ms) = shown s ++ all_shown ms

abbrev pub opening : Bool → List (Ptr × Text) → Text
opening true ms = []
opening false [] = []
opening false (x ∷ ms) = heading

-- The messages stay where they are.
moved :
    (k : ℕ) (ms : List (Ptr × Text)) (m m' : Memory)
    → ((a : Ptr) → lookup a m' ≡ lookup a m)
    → All (IsMessage k m) ms
    → All (IsMessage k m') ms
moved k [] m m' same h = tt
moved k ((p, s) ∷ ms) m m' same ((e, some_line, short), h) =
    ((same p ∙ e, some_line, short), moved k ms m m' same h)

opening_nil : (b : Bool) → opening b [] ≡ []
opening_nil true = refl
opening_nil false = refl

opening_first :
    (b : Bool) (x : Ptr × Text) (ms : List (Ptr × Text)) (t : Text)
    → (if b then t else heading ++ t) ≡ opening b (x ∷ ms) ++ t
opening_first true x ms t = refl
opening_first false x ms t = refl

or_false : (b : Bool) → b ≡ (b || false)
or_false b = ground arith

or_true : (b : Bool) → true ≡ (b || true)
or_true b = ground arith

module _ {T : Type 0} (A : Allocator) (k : ℕ) where
  cplr_tcc_error_lem :
      (c : Cplr T) (m : Memory) (p : Ptr) (s : Text)
      → IsMessage k m (p, s)
      → Returns
          (λ ((out, d), m').
            (out ≡ (if c.tccerr then shown s else heading ++ shown s))
            × (d ≡ record c { tccerr = true })
            × ((a : Ptr) → lookup a m' ≡ lookup a m))
          (cplr_tcc_error A k c p m)
  unfolding cplr_tcc_error strdup read_text cext_free
  cplr_tcc_error_lem c m p s (e, some_line, short) =
      let there = lookup-write_self (A.malloc m) (some (heap_text s)) m in
      let apart : (A.malloc m == null) ≡ false = ground (arith, A.malloc_ne_null m) in
      rw (e, there, print_message_lem k s some_line short, apart)
        (let unused = A.malloc_unused m in returns (refl, refl, λ a. ground arith))

  -- The messages of a compiler, each with a line that is not empty and fewer bytes than fuel, are
  -- all printed, their lines indented and without the empty ones, behind one heading, unless the
  -- piler has noted that the heading is there; it has noted it then, and memory is as it was.
  pub report_all-shown :
      (ms : List (Ptr × Text)) (c : Cplr T) (m : Memory)
      → All (IsMessage k m) ms
      → Returns
          (λ ((out, d), m').
            (out ≡ opening c.tccerr ms ++ all_shown ms)
            × (d ≡ record c { tccerr = c.tccerr || not (is_empty ms) })
            × ((a : Ptr) → lookup a m' ≡ lookup a m))
          (report_all A k c (map (λ (x : Ptr × Text). x.0) ms) m)
  unfolding report_all
  report_all-shown [] c m h = returns (
    sym (ap (λ o. o ++ []) (opening_nil c.tccerr)),
    ap (λ (b : Bool). record c { tccerr = b }) (or_false c.tccerr),
    λ a. refl,
  )
  report_all-shown ((p, s) ∷ ms) c m (h, hs) =
      Returns-bind (cplr_tcc_error_lem c m p s h) λ ((out, c'), m₁) (e, d, same).
        Returns-bind (report_all-shown ms c' m₁ (moved k ms m m₁ same hs))
          λ ((rest, c''), m₂) (e', d', same').
            let plain : rest ≡ all_shown ms =
              e' ∙ ap (λ (z : Cplr T). opening z.tccerr ms ++ all_shown ms) d in
            returns {a = ((out ++ rest, c''), m₂)} (
              ap (λ o. o ++ rest) (e ∙ opening_first c.tccerr (p, s) ms (shown s))
                  ∙ (ap (λ r. (opening c.tccerr ((p, s) ∷ ms) ++ shown s) ++ r) plain
                      ∙ append_assoc (opening c.tccerr ((p, s) ∷ ms)) (shown s) (all_shown ms)),
              d'
                  ∙ (ap (λ (z : Cplr T). record z { tccerr = z.tccerr || not (is_empty ms) }) d
                      ∙ ap (λ (b : Bool). record c { tccerr = b }) (or_true c.tccerr)),
              λ a. same' a ∙ same a,
            )
