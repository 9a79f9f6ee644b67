-- ===== src/Session/Frees.antt =====
-- Freeing the chain behind the first piler of a session.
use cplr.Base.{
  ℕ, zero, suc, ◌<◌, ◌≡◌, refl, ap, ◌∙◌, true, false, ◌||◌, none, List, [], ◌∷◌, length, arith,
  ◌==◌, Bool-cases, inl, inr,
}
use cplr.Base.Outcome.{Returns, returns, Returns-bind, Returns-mono}
use cplr.State.Context.{Cplr, Ptr}
use cplr.State.Chain.{Store, write}
use cplr.Tcc.{Tcc}
use cplr.Host.{Host}
use cplr.Session.Interact.{free_chain}
use cplr.Session.Chains.{
  among, current, Session, Session-write, load-Returns, write_other, write_self, cplr_free-Returns,
}

module _ (K : Tcc) (b : Ptr) where
  -- The pilers of the session behind the first one are freed, and nothing else is.
  pub record Freed (s : Store K.State) (ps : List Ptr) (s' : Store K.State) : Type 0 where
    pub gone : (a : Ptr) → among ps a ≡ true → s' a ≡ none
    pub others : (a : Ptr) → among ps a ≡ false → s' a ≡ s a

  pub free_chain-Freed :
      (H : Host) (k : ℕ) (s : Store K.State) (ps : List Ptr)
      → Session K s b ps
      → length ps < k
      → Returns (Freed s ps) (free_chain H K k b (current b ps) s)
  unfolding free_chain
  free_chain-Freed H zero s ps h lt = absurd (omega arith)
  free_chain-Freed H (suc k) s [] h lt =
      let same : (b == b) ≡ true = ground arith in
      rw same (returns (record { gone = λ a h. cc; others = λ a h. refl }))
  free_chain-Freed H (suc k) s (p ∷ ps) ((ne, c, e, u, i), nb, out, rest) lt =
      let s₁ = write s p none in
      let out' : ((p == b) || among ps p) ≡ false = ground arith in
      let apart : (p == b) ≡ false = ground arith in
      let P = Freed s (p ∷ ps) in
      rw apart (
        Returns-bind (load-Returns s p ne e) λ d same.
          Returns-bind (cplr_free-Returns s p ne e) λ s' j.
            let before : d.c_prev ≡ current b ps = ap (λ (x : Cplr K.State). x.c_prev) same ∙ i in
            rw (j, before)
              (Returns-mono
                (free_chain-Freed H k s₁ ps (Session-write K s b ps p none out' rest) (omega arith))
                λ s₂ f. record {
                  gone = λ a h. elim (Bool-cases (among ps a)) [
                    | inl more ↦ f.gone a more
                    | inr last ↦
                        let e : a ≡ p = ground arith in
                        f.others a last ∙ (ap s₁ e ∙ write_self s p none)
                  ];
                  others = λ a h. f.others a (ground arith) ∙ write_other s p none a (ground arith);
                }))
