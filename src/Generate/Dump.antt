-- ===== src/Generate/Dump.antt =====
-- `cplr_generate_dump`: the dump buffer goes to a filter. The pipe is a parameter.
use cplr.Base.{
  ℕ, zero, suc, ◌+◌, ◌-◌, ◌≤◌, ◌<◌, ◌≡◌, ◌⊎◌, refl, sym, ap, ◌∙◌, Option, none, some, [], ◌++◌, inl,
  inr, Bool-cases, true, ltb, if◌then◌else◌, arith, length, take, drop, take-append-drop, take_all,
  drop_all, drop-drop, length-drop, length-take, append-nil, append_assoc,
}
use cplr.Base.Outcome.{
  Outcome, done, crash, exits, out_of_fuel, ◌>>=◌, Returns, returns, Returns-mono, Returns-bind,
}
use cplr.Base.Text.{Text, lit}
use cplr.State.Context.{Cplr}

-- `popen` for writing gives a stream, or `none` for NULL; `fwrite` of bytes says how many it has
-- written.
pub record Pipes : Type 1 where
  pub Stream : Type 0
  pub popen : Text → Option Stream
  pub fwrite : Text → Stream → ℕ × Stream
  pub pclose : Stream → Stream

-- `sizeof(buf)`: the size of a pointer.
abbrev pub step_limit : ℕ
step_limit = 8

-- How much is written next.
unfoldable pub next_step : ℕ → ℕ
next_step left = if ltb step_limit left then step_limit else left

-- `getenv("CPLR_DUMP_FILTER")`, or the default.
abbrev pub dump_filter : Option Text → Text
dump_filter (some filter) = filter
dump_filter none = lit "cat -n -"

module _ (P : Pipes) where
  -- The loop over the buffer.
  unfoldable pub dump_loop : ℕ → (buf : Text) → (written : ℕ) → P.Stream → Outcome P.Stream
  unfolding next_step
  dump_loop zero buf written out = out_of_fuel
  dump_loop (suc k) buf written out =
      let step = next_step (length buf - written) in
      let (n, out') = P.fwrite (take step (drop written buf)) out in
      let rest = dump_loop k buf (written + n) out' in
      if ltb written (length buf) then (if ltb n step then exits 1 else rest) else done out

  -- `none` is a dump that is not wanted.
  unfoldable pub generate_dump :
      ℕ → (filter : Option Text) → {T : Type 0} → Cplr T → Outcome (Option P.Stream)
  unfolding dump_loop
  generate_dump k filter c =
      if ltb 0 c.dump
      then elim c.g_dumpbuf [
        | none ↦ crash
        | some buf ↦ elim (P.popen (dump_filter filter)) [
          | none ↦ crash
          | some out ↦ (do out' ← dump_loop k buf 0 out; done (some (P.pclose out')))
        ]
      ]
      else done none

  module _ (received : P.Stream → Text) where
    -- What `fwrite` is documented to do: it writes some bytes from the start, and says how many.
    abbrev pub Writes : Type 0
    Writes =
        (t : Text) (s : P.Stream)
        → ((P.fwrite t s).0 ≤ length t)
          × (received (P.fwrite t s).1 ≡ received s ++ take (P.fwrite t s).0 t)

    -- The stream has received `whole` up to some piece, and takes only a part of that.
    abbrev pub ShortWrite : (whole : Text) → Type 0
    ShortWrite whole =
        (s : P.Stream) × (piece : Text) × (later : Text) × (received s ++ (piece ++ later) ≡ whole)
        × ((P.fwrite piece s).0 < length piece)

    -- The loop ends the program at a short write, or the filter has received the rest of the buffer.
    abbrev Whole : (buf : Text) (written : ℕ) → P.Stream → Outcome P.Stream → Type 0
    Whole buf written out m =
        ((m ≡ exits 1) × ShortWrite (received out ++ drop written buf))
        ⊎ Returns (λ out'. received out' ≡ received out ++ drop written buf) m

    next_step-le : (left : ℕ) → next_step left ≤ left
    unfolding next_step
    next_step-le left = ground arith

    next_step-pos : (left : ℕ) → 0 < left → 0 < next_step left
    unfolding next_step
    next_step-pos left h = ground arith

    -- The rest of the buffer is received after a piece of it.
    received-rest :
        (n : ℕ) (buf : Text) (written : ℕ) (out out' : P.Stream)
        → received out' ≡ received out ++ take n (drop written buf)
        → received out' ++ drop (written + n) buf ≡ received out ++ drop written buf
    received-rest n buf written out out' first =
        (ap (λ t. t ++ drop (written + n) buf) first
          ∙ (append_assoc (received out) (take n (drop written buf)) (drop (written + n) buf)
              ∙ ap (λ t. received out ++ t)
                  (ap (λ t. take n (drop written buf) ++ t) (sym (drop-drop written n buf))
                    ∙ take-append-drop n (drop written buf))))

    dump_loop-Whole :
        (w : Writes) (k : ℕ) (buf : Text) (written : ℕ) (out : P.Stream)
        → written ≤ length buf
        → length buf - written < k
        → Whole buf written out (dump_loop k buf written out)
    unfolding dump_loop
    dump_loop-Whole w zero buf written out le lt = absurd (omega arith)
    dump_loop-Whole w (suc k) buf written out le lt = elim (Bool-cases (ltb written (length buf))) [
      | inl more ↦
          let left = length buf - written in
          let step = next_step left in
          let piece = take step (drop written buf) in
          let n = (P.fwrite piece out).0 in
          let out₁ = (P.fwrite piece out).1 in
          let fits = next_step-le left in
          let long = length-drop written buf in
          let size : length piece ≡ step = length-take step (drop written buf) (omega arith) in
          rw more (elim (Bool-cases (ltb n step)) [
            | inl short ↦ rw short (
                inl (
                  refl,
                  (
                    out,
                    piece,
                    drop step (drop written buf),
                    ap (λ t. received out ++ t) (take-append-drop step (drop written buf)),
                    ground (arith, size),
                  ),
                ))
            | inr full ↦
                let (most, got) = w piece out in
                let all : n ≡ step = ground arith in
                let pos = next_step-pos left (ground arith) in
                let received_now = received-rest n buf written out out₁ (
                  got
                  ∙ ap (λ t. received out ++ t)
                      (take_all n piece (omega arith)
                        ∙ ap (λ (i : ℕ). take i (drop written buf)) (sym all))) in
                rw full
                  (elim (dump_loop-Whole w k buf (written + n) out₁ (omega arith) (omega arith)) [
                    | inl (e, (s, piece', later, there, short)) ↦
                        inl (e, (s, piece', later, there ∙ received_now, short))
                    | inr r ↦ inr (Returns-mono r λ out'' e. e ∙ received_now)
                  ])
          ])
      | inr over ↦ rw over (
          inr (
            returns (
              sym (append-nil (received out))
              ∙ ap (λ t. received out ++ t) (sym (drop_all written buf (ground arith))))))
    ]

    -- A dump that is wanted, with its buffer and a filter that can be started: with more fuel than
    -- bytes, the filter has received the buffer, each byte once, or the program ends with 1 and the
    -- filter, which had received the buffer up to some piece, took only a part of that piece.
    pub generate_dump-received :
        (w : Writes) (closes : (s : P.Stream) → received (P.pclose s) ≡ received s) (k : ℕ)
        (filter : Option Text) {T : Type 0} (c : Cplr T) {buf : Text} {out : P.Stream}
        → 0 < c.dump
        → c.g_dumpbuf ≡ some buf
        → P.popen (dump_filter filter) ≡ some out
        → received out ≡ []
        → length buf < k
        → ((generate_dump k filter c ≡ exits 1) × ShortWrite buf)
          ⊎ Returns
              (λ o. (s : P.Stream) × (o ≡ some s) × (received s ≡ buf))
              (generate_dump k filter c)
    unfolding generate_dump
    generate_dump-received w closes k filter c {buf} {out} wanted b o empty lt =
        let pos : ltb 0 c.dump ≡ true = ground arith in
        rw (pos, b, o)
          (elim (dump_loop-Whole w k buf 0 out (omega arith) (omega arith)) [
            | inl (e, (s, piece, later, there, short)) ↦
                rw e (inl (refl, (s, piece, later, there ∙ ap (λ t. t ++ buf) empty, short)))
            | inr r ↦ inr (
                Returns-bind r λ out' e.
                  returns (P.pclose out', refl, closes out' ∙ (e ∙ ap (λ t. t ++ buf) empty)))
          ])
