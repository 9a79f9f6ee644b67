-- ===== src/Session/Chains.antt =====
-- The chain of a session, and the steps that keep it.
use cplr.Base.{
  ℕ, ◌≤◌, ◌≡◌, ◌≢◌, refl, sym, ap, ◌∙◌, subst, Bool, true, false, ◌||◌, Option, none, some, List,
  [], ◌∷◌, arith, ◌==◌, if_elim,
}
use cplr.Base.Outcome.{Returns, returns, Returns-bind}
use cplr.Base.Text.{Text}
use cplr.State.Context.{Cplr, Ptr, null}
use cplr.State.Chain.{Store, write, load, cplr_free}
use cplr.State.Laws.{load_lem, cplr_free_lem}
use cplr.Tcc.{Tcc}
use cplr.Host.{Host}
use cplr.Phases.Prepares.{Prints}
use cplr.Phases.Ends.{Ends, ends, Ends-bind, Ends-Returns}
use cplr.Phases.Sound.{links, Usable}
use cplr.Command.Keeps.{cplr_command-Kept}
use cplr.Session.Interact.{tcc_before, command_at}

-- The addresses in a list.
abbrev pub among : List Ptr → Ptr → Bool
among [] a = false
among (p ∷ ps) a = (a == p) || among ps a

-- The last piler of a session that began with `b` and has created `ps`, the last one first.
abbrev pub current : Ptr → List Ptr → Ptr
current b [] = b
current b (p ∷ ps) = p

module _ {T : Type 0} where
  pub load-Returns :
      (s : Store T) (p : Ptr) {c : Cplr T}
      → p ≢ null
      → s p ≡ some c
      → Returns (λ x. x ≡ c) (load s p)
  load-Returns s p ne e = rw (load_lem s p ne e) (returns refl)

  pub write_other :
      (s : Store T) (p : Ptr) (c : Option (Cplr T)) (a : Ptr) → a ≢ p → write s p c a ≡ s a
  unfolding write
  write_other s p c a h = ground arith

pub cplr_free-Returns :
    {T : Type 0} (s : Store T) (p : Ptr) {c : Cplr T}
    → p ≢ null
    → s p ≡ some c
    → Returns (λ s'. s' ≡ write s p none) (cplr_free p s)
cplr_free-Returns s p ne e = rw (cplr_free_lem p s ne e) (returns refl)

pub write_self : {T : Type 0} (s : Store T) (p : Ptr) (c : Option (Cplr T)) → write s p c p ≡ c
unfolding write
write_self s p c = ground arith

pub current-out :
    (b : Ptr) (ps : List Ptr) (a : Ptr) → a ≢ b → among ps a ≡ false → a ≢ current b ps
current-out b [] a nb h = nb
current-out b (p ∷ ps) a nb h = ground arith

module _ (K : Tcc) where
  -- A piler that can go on, behind the one at `before`.
  abbrev pub Alive : Store K.State → (before p : Ptr) → Type 0
  Alive s before p =
      (p ≢ null) × (c : Cplr K.State) × (s p ≡ some c) × Usable K (links c) c × (c.c_prev ≡ before)

  abbrev pub Session : Store K.State → Ptr → List Ptr → Type 0
  Session s b [] = Alive s null b
  Session s b (p ∷ ps) = Alive s (current b ps) p × (p ≢ b) × (among ps p ≡ false) × Session s b ps

  -- Only the last piler and what is not in the session changes.
  Session-other :
      (s s' : Store K.State) (b : Ptr) (ps : List Ptr)
      → ((a : Ptr) → ((a == b) || among ps a) ≡ true → s' a ≡ s a)
      → Session s b ps
      → Session s' b ps
  Session-other s s' b [] h (ne, c, e, u, p) = (ne, c, h b (ground arith) ∙ e, u, p)
  Session-other s s' b (q ∷ ps) h ((ne, c, e, u, p), nb, out, rest) = (
    (ne, c, h q (ground arith) ∙ e, u, p),
    nb,
    out,
    Session-other s s' b ps (λ a k. h a (ground arith)) rest,
  )

  pub Session-current :
      (s : Store K.State) (b : Ptr) (ps : List Ptr)
      → Session s b ps
      → (before : Ptr) × Alive s before (current b ps)
  Session-current s b [] h = (null, h)
  Session-current s b (p ∷ ps) h = (current b ps, h.0)

  -- Every piler of the session is in memory.
  pub unused_apart :
      (s : Store K.State) (b : Ptr) (ps : List Ptr) (a : Ptr)
      → Session s b ps
      → s a ≡ none
      → ((a == b) || among ps a) ≡ false
  unused_apart s b [] a (ne, c, e, u, p) h = ground arith
  unused_apart s b (q ∷ ps) a ((ne, c, e, u, p), nb, out, rest) h =
      ground (arith, unused_apart s b ps a rest h)

  pub Session-write :
      (s : Store K.State) (b : Ptr) (ps : List Ptr) (q : Ptr) (c : Option (Cplr K.State))
      → ((q == b) || among ps q) ≡ false
      → Session s b ps
      → Session (write s q c) b ps
  unfolding write
  Session-write s b ps q c out h =
      Session-other s (write s q c) b ps (λ a k. ground (arith, ap (λ x. (x == b) || among ps x))) h

  -- The last piler is replaced by one at the same place.
  pub Session-replace :
      (s : Store K.State) (b : Ptr) (ps : List Ptr) (c c' : Cplr K.State)
      → s (current b ps) ≡ some c
      → Usable K (links c') c'
      → c'.c_prev ≡ c.c_prev
      → Session s b ps
      → Session (write s (current b ps) (some c')) b ps
  unfolding write
  Session-replace s b [] c c' e u k (ne, d, i, v, p) =
      let same : some c ≡ some d = sym e ∙ i in (ne, c', ground arith, u, k ∙ cc)
  Session-replace s b (q ∷ ps) c c' e u k ((ne, d, i, v, p), nb, out, rest) =
      let same : some c ≡ some d = sym e ∙ i in
      (
        (ne, c', ground arith, u, k ∙ cc),
        nb,
        out,
        Session-write s b ps q (some c') (ground arith) rest,
      )

  -- The piler before the last one is in memory too.
  tcc_before-Returns :
      (H : Host) (s : Store K.State) (b : Ptr) (ps : List Ptr) (c : Cplr K.State)
      → s (current b ps) ≡ some c
      → Session s b ps
      → Returns (λ _. Unit {0}) (tcc_before H K c s)
  unfolding tcc_before
  tcc_before-Returns H s b [] c e (ne, d, i, v, p) =
      let same : some c ≡ some d = sym e ∙ i in
      let none_before : (c.c_prev == null) ≡ true = ground arith in rw none_before (returns tt)
  tcc_before-Returns H s b (q ∷ ps) c e ((ne, d, i, v, p), nb, out, rest) =
      let (before, (ne', d', i', v', p')) = Session-current s b ps rest in
      let same : some c ≡ some d = sym e ∙ i in
      let prev : c.c_prev ≡ current b ps = cc in
      if_elim (Returns (λ _. Unit {0})) (c.c_prev == null) (returns tt) (
        Returns-bind (load-Returns s c.c_prev (λ h. ne' (sym prev ∙ h)) (ap s prev ∙ i'))
          λ d k. returns tt)

  -- What a command does to the session.
  pub record Stepped (s : Store K.State) (b : Ptr) (ps : List Ptr) (x : ℕ × Store K.State)
      : Type 0 where
    pub small : x.0 ≤ 1
    pub session : Session x.1 b ps
    pub others : (a : Ptr) → a ≢ current b ps → x.1 a ≡ s a

  pub command_at-Stepped :
      (H : Host) (prints : Prints H) {t : K.State} (new : K.new ≡ some t) (line : Text)
      (s : Store K.State) (b : Ptr) (ps : List Ptr)
      → Session s b ps
      → Ends K (Stepped s b ps) (command_at H K (current b ps) line s)
  unfolding command_at
  command_at-Stepped H prints new line s b ps h =
      let (before, (ne, c, e, u, p)) = Session-current s b ps h in
      Ends-Returns (load-Returns s (current b ps) ne e) λ d same.
        Ends-Returns (tcc_before-Returns H s b ps d (e ∙ ap some (sym same)) h) λ prev _.
          Ends-bind
            (cplr_command-Kept H K prev prints new line d
              (subst (λ d. Usable K (links d) d) (sym same) u))
            λ (r, c') (u', small). ends (record {
              small = small;
              session =
                  Session-replace s b ps d c' (e ∙ ap some (sym same))
                    (u'.0, (u'.1.0, u'.1.1, u'.1.2, u'.1.3, refl))
                    (ap (λ (l : Ptr × (Ptr × (Ptr × ℕ))). l.1.0) u'.1.4) h;
              others = write_other s (current b ps) (some c');
            })
