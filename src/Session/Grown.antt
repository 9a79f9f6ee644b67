-- ===== src/Session/Grown.antt =====
-- A session that a new piler makes longer.
use cplr.Base.{
  ℕ, ◌+◌, ◌≤◌, ◌≡◌, ◌≢◌, refl, sym, ap, ◌∙◌, subst, true, false, none, some, List, ◌∷◌, length,
  arith, if_elim,
}
use cplr.Base.Outcome.{Returns, returns, Returns-bind}
use cplr.State.Context.{Cplr, Ptr, null}
use cplr.State.Clone.{copy_fields}
use cplr.State.Chain.{Store, write, chained, cplr_chain}
use cplr.State.Laws.{NoNull, cplr_chain_lem}
use cplr.Tcc.{Tcc}
use cplr.Host.{Host}
use cplr.Phases.Sound.{links, Usable}
use cplr.Session.Interact.{Event, next_piler}
use cplr.Session.Chains.{
  among, current, Session, Session-current, Session-write, Session-replace, unused_apart, Stepped,
  load-Returns, write_other, write_self, current-out,
}

module _ (K : Tcc) (b : Ptr) where
  -- A session that began with the memory `s₀`.
  pub record Grown (s₀ s : Store K.State) (ps used : List Ptr) : Type 0 where
    pub session : Session K s b ps
    pub kept : (a : Ptr) → a ≢ b → among ps a ≡ false → s a ≡ s₀ a
    pub created : (a : Ptr) → among ps a ≡ true → s₀ a ≡ none
    pub within : (a : Ptr) → among used a ≡ false → among ps a ≡ false

  Grown-more :
      (s₀ s : Store K.State) (ps used : List Ptr) (f : Ptr)
      → Grown s₀ s ps used
      → Grown s₀ s ps (f ∷ used)
  Grown-more s₀ s ps used f g = record {
    session = g.session;
    kept = g.kept;
    created = g.created;
    within = λ a h. g.within a (ground arith);
  }

  -- A new piler behind the last one.
  Grown-chain :
      (s₀ s : Store K.State) (ps used : List Ptr) (f : Ptr) (c : Cplr K.State)
      → s (current b ps) ≡ some c
      → Usable K (links c) c
      → f ≢ null
      → s₀ f ≡ none
      → among used f ≡ false
      → f ≢ b
      → Grown s₀ s ps used
      → Grown s₀
          (write
            (write s f (some (chained (current b ps) c (copy_fields f c c.defs))))
            (current b ps)
            (some (record c { c_next = f })))
          (f ∷ ps)
          (f ∷ used)
  Grown-chain s₀ s ps used f c e u ne free unused nb g =
      let at = current b ps in
      let n = chained at c (copy_fields f c c.defs) in
      let s₁ = write s f (some n) in
      let out = g.within f unused in
      let free' : s f ≡ none = g.kept f nb out ∙ free in
      let f_ne : f ≢ at = λ h. cc (ap s h) in
      let there : s₁ f ≡ some n = write_self s f (some n) in
      record {
        session = (
          (
            ne,
            n,
            write_other s₁ at (some (record c { c_next = f })) f f_ne ∙ there,
            ((λ h. cc), (refl, u.1.1, refl, u.1.3, refl)),
            refl,
          ),
          nb,
          out,
          Session-replace K s₁ b ps c (record c { c_next = f })
              (write_other s f (some n) at (λ h. f_ne (sym h)) ∙ e)
              (u.0, (u.1.0, u.1.1, u.1.2, u.1.3, refl)) refl
              (Session-write K s b ps f (some n) (unused_apart K s b ps f g.session free')
                g.session),
        );
        kept = λ a ab k.
            write_other s₁ at (some (record c { c_next = f })) a
              (current-out b ps a ab (ground arith))
            ∙ (write_other s f (some n) a (ground arith) ∙ g.kept a ab (ground arith));
        created = λ a k. ground (arith, free, g.created a);
        within = λ a h. ground (arith, g.within a);
      }

  pub Grown-step :
      (s₀ s : Store K.State) (ps used : List Ptr) (x : ℕ × Store K.State)
      → Stepped K s b ps x
      → Grown s₀ s ps used
      → Grown s₀ x.1 ps used
  Grown-step s₀ s ps used x st g = record {
    session = st.session;
    kept = λ a ab k. st.others a (current-out b ps a ab k) ∙ g.kept a ab k;
    created = g.created;
    within = g.within;
  }

  pub next_piler-Grown :
      (H : Host) (s₀ s : Store K.State) (ps used : List Ptr) (e : Event)
      → e.fresh ≢ null
      → s₀ e.fresh ≡ none
      → among used e.fresh ≡ false
      → e.fresh ≢ b
      → Grown s₀ s ps used
      → Returns
          (λ (at, s').
            (qs : List Ptr) × (at ≡ current b qs)
            × (length qs ≤ length ps + 1)
            × Grown s₀ s' qs (e.fresh ∷ used))
          (next_piler H K e (current b ps) s)
  unfolding next_piler
  next_piler-Grown H s₀ s ps used e ne free unused nb g =
      let (before, (pne, c, i, u, p)) = Session-current K s b ps g.session in
      Returns-bind (load-Returns s (current b ps) pne i) λ d same.
        let i' : s (current b ps) ≡ some d = i ∙ ap some (sym same) in
        let u' = subst (λ d. Usable K (links d) d) (sym same) u in
        if_elim
          (Returns (λ (at, s').
            (qs : List Ptr) × (at ≡ current b qs)
            × (length qs ≤ length ps + 1)
            × Grown s₀ s' qs (e.fresh ∷ used)))
          d.flag.loaded
          (Returns-bind (chains (e.fresh) (current b ps) s d pne i' u'.1.3) λ s' k. returns (
            e.fresh ∷ ps,
            refl,
            omega arith,
            subst (λ s. Grown s₀ s (e.fresh ∷ ps) (e.fresh ∷ used)) (sym k)
                (Grown-chain s₀ s ps used e.fresh d i' u' ne free unused nb g),
          ))
          (returns (ps, refl, omega arith, Grown-more s₀ s ps used e.fresh g))
    where
      chains :
          (f at : Ptr) (s : Store K.State) (d : Cplr K.State)
          → at ≢ null
          → s at ≡ some d
          → NoNull d.defs
          → Returns
              (λ s'.
                s'
                ≡ write
                    (write s f (some (chained at d (copy_fields f d d.defs))))
                    at
                    (some (record d { c_next = f })))
              (cplr_chain f at s)
      chains f at s d ne e h = rw (cplr_chain_lem f at s ne e h) (returns refl)
