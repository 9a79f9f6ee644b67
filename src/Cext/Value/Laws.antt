-- ===== src/Cext/Value/Laws.antt =====
-- What is read of a value that was set, and what becomes of the strings it owns.
use Prim.Native.Nat.{bit_and}
use cplr.Base.{
  ℕ, zero, suc, ◌-◌, ◌%◌, ◌^◌, ◌≡◌, refl, sym, ap, ◌∙◌, List, [], ◌∷◌, ◌==◌, if◌then◌else◌, arith,
  Bool-cases, inl, inr,
}
use cplr.Base.Outcome.{done, aborts, ◌>>=◌}
use cplr.Cext.Types
use cplr.Cext.Types.{
  Simple, bool, char, type_code, arg_width, field_width, vteq_mask, vt_string, vtm_owned,
}
use cplr.Cext.Memory.{Value, Memory}
use cplr.Cext.Value.{
  value_clear, value_has_type, asserted, sign_extend, as_arg, stored, value_set, value_get,
}

pub masked : (k : Simple) → bit_and (type_code k) vteq_mask ≡ type_code k
masked Types.bool = refl
masked Types.char = refl
masked Types.short = refl
masked Types.ushort = refl
masked Types.int = refl
masked Types.uint = refl
masked Types.long = refl
masked Types.ulong = refl
masked Types.longlong = refl
masked Types.ulonglong = refl
masked Types.int8 = refl
masked Types.int16 = refl
masked Types.int32 = refl
masked Types.int64 = refl
masked Types.uint8 = refl
masked Types.uint16 = refl
masked Types.uint32 = refl
masked Types.uint64 = refl
masked Types.float = refl
masked Types.double = refl
masked Types.off = refl
masked Types.size = refl
masked Types.ssize = refl

stored-mod : (k : Simple) (x : ℕ) → stored k x % 2 ^ arg_width k ≡ as_arg k x
unfolding stored sign_extend as_arg
stored-mod Types.bool x = ground arith
stored-mod k x = ground arith

-- The types in the order of their numbers, which start at 2.
simple_types : List Simple
simple_types =
    Types.bool ∷ Types.char ∷ Types.short ∷ Types.ushort ∷ Types.int ∷ Types.uint ∷ Types.long
    ∷ Types.ulong ∷ Types.longlong ∷ Types.ulonglong ∷ Types.int8 ∷ Types.int16 ∷ Types.int32
    ∷ Types.int64 ∷ Types.uint8 ∷ Types.uint16 ∷ Types.uint32 ∷ Types.uint64 ∷ Types.float
    ∷ Types.double ∷ Types.off ∷ Types.size ∷ Types.ssize ∷ []

simple_at : ℕ → List Simple → Simple
simple_at i [] = Types.bool
simple_at zero (k ∷ ks) = k
simple_at (suc i) (k ∷ ks) = simple_at i ks

simple_at-type_code : (k : Simple) → simple_at (type_code k - 2) simple_types ≡ k
unfolding simple_at simple_types
simple_at-type_code Types.bool = refl
simple_at-type_code Types.char = refl
simple_at-type_code Types.short = refl
simple_at-type_code Types.ushort = refl
simple_at-type_code Types.int = refl
simple_at-type_code Types.uint = refl
simple_at-type_code Types.long = refl
simple_at-type_code Types.ulong = refl
simple_at-type_code Types.longlong = refl
simple_at-type_code Types.ulonglong = refl
simple_at-type_code Types.int8 = refl
simple_at-type_code Types.int16 = refl
simple_at-type_code Types.int32 = refl
simple_at-type_code Types.int64 = refl
simple_at-type_code Types.uint8 = refl
simple_at-type_code Types.uint16 = refl
simple_at-type_code Types.uint32 = refl
simple_at-type_code Types.uint64 = refl
simple_at-type_code Types.float = refl
simple_at-type_code Types.double = refl
simple_at-type_code Types.off = refl
simple_at-type_code Types.size = refl
simple_at-type_code Types.ssize = refl

type_code_inj : (j k : Simple) → type_code j ≡ type_code k → j ≡ k
type_code_inj j k e =
    sym (simple_at-type_code j)
    ∙ (ap (λ n. simple_at (n - 2) simple_types) e ∙ simple_at-type_code k)

pub value_get-stored :
    (j k : Simple) (x : ℕ)
    → value_get j (record { type = type_code k; payload = stored k x })
      ≡ (if type_code k == type_code j then done (as_arg k x) else aborts)
unfolding value_get asserted value_has_type
value_get-stored j k x =
    rw (masked j, masked k)
      (elim (Bool-cases (type_code k == type_code j)) [
        | inl same ↦
            let e : k ≡ j = type_code_inj k j (ground arith) in
            rw (same, sym e, stored-mod k x) refl
        | inr other ↦ rw other refl
      ])

module _ (m : Memory) (v : Value) {w : Value} {m' : Memory}
    (cleared : value_clear v m ≡ done (w, m')) where
  -- Over a value that can be cleared, a getter returns the number that a setter has been given, as
  -- the type of the setter's argument takes it, where the two are of the same type, and else it
  -- aborts. The argument of the setter of `long` has 16 bits.
  pub value_get-value_set :
      (j k : Simple) (x : ℕ)
      → (do (u, _) ← value_set k v x m; value_get j u)
        ≡ (if type_code k == type_code j then done (as_arg k x) else aborts)
  unfolding value_set
  value_get-value_set j k x = rw cleared (value_get-stored j k x)
