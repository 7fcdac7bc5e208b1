-- ===== src/Stats/Trace/Kept.antt =====
-- rtcstats/rtcstats.go: no trace line is lost or sent twice.
use getstream_go_webrtc.Base.{
  ℕ, ◌+◌, ◌≤◌, ◌≡◌, refl, sym, ap, subst, ◌∙◌, inl, inr, Bool, Option, List, [], ◌∷◌, ◌++◌, arith,
  leb, if◌then◌else◌, leb→le, Bool-cases, All,
}
use getstream_go_webrtc.Stats.Trace.{
  Event, Line, TraceBuffer, is_blacklisted, insert, sorted, take_lines, namespace_for, emit,
}

-- How many lines pass a test
abbrev pub count : (Line → Bool) → List Line → ℕ
count passes [] = 0
count passes (l ∷ lines) = (if passes l then 1 else 0) + count passes lines

count-append :
    (passes : Line → Bool) (xs ys : List Line)
    → count passes (xs ++ ys) ≡ count passes xs + count passes ys
count-append passes [] ys = omega arith
count-append passes (x ∷ xs) ys = omega (arith, count-append passes xs ys)

count-insert :
    (passes : Line → Bool) (l : Line) (lines : List Line)
    → count passes (insert l lines) ≡ count passes (l ∷ lines)
unfolding insert
count-insert passes l [] = refl
count-insert passes l (m ∷ lines) = elim (Bool-cases (leb l.ts m.ts)) [
  | inl first ↦ ap (λ b. count passes (if b then l ∷ m ∷ lines else m ∷ insert l lines)) first
  | inr later ↦
      ap (λ b. count passes (if b then l ∷ m ∷ lines else m ∷ insert l lines)) later
      ∙ omega (arith, count-insert passes l lines)
]

count-sorted :
    (passes : Line → Bool) (lines : List Line) → count passes (sorted lines) ≡ count passes lines
unfolding sorted
count-sorted passes [] = refl
count-sorted passes (l ∷ lines) =
    count-insert passes l (sorted lines) ∙ omega (arith, count-sorted passes lines)

-- No line is older than one before it.
abbrev pub IsSorted : List Line → Type 0
IsSorted [] = Unit
IsSorted (l ∷ lines) = All (λ m. l.ts ≤ m.ts) lines × IsSorted lines

All-insert :
    (Q : Line → Type 0) (l : Line) (lines : List Line) → Q l → All Q lines → All Q (insert l lines)
unfolding insert
All-insert Q l [] h h' = (h, tt)
All-insert Q l (m ∷ lines) h (now, later) = elim (Bool-cases (leb l.ts m.ts)) [
  | inl first ↦
      subst (λ b. All Q (if b then l ∷ m ∷ lines else m ∷ insert l lines)) (sym first)
        (h, (now, later))
  | inr behind ↦
      subst (λ b. All Q (if b then l ∷ m ∷ lines else m ∷ insert l lines)) (sym behind)
        (now, All-insert Q l lines h later)
]

All-later :
    (a b : ℕ) (lines : List Line) → a ≤ b → All (λ m. b ≤ m.ts) lines → All (λ m. a ≤ m.ts) lines
All-later a b [] h all = tt
All-later a b (m ∷ lines) h (now, later) = (omega (arith, h, now), All-later a b lines h later)

insert-IsSorted : (l : Line) (lines : List Line) → IsSorted lines → IsSorted (insert l lines)
unfolding insert
insert-IsSorted l [] h = (tt, tt)
insert-IsSorted l (m ∷ lines) (low, h) = elim (Bool-cases (leb l.ts m.ts)) [
  | inl first ↦
      let order : l.ts ≤ m.ts = leb→le l.ts m.ts first in
      subst (λ b. IsSorted (if b then l ∷ m ∷ lines else m ∷ insert l lines)) (sym first)
        ((order, All-later l.ts m.ts lines order low), (low, h))
  | inr behind ↦
      subst (λ b. IsSorted (if b then l ∷ m ∷ lines else m ∷ insert l lines)) (sym behind)
        (
          All-insert (λ x. m.ts ≤ x.ts) l lines (ground (arith, behind)) low,
          insert-IsSorted l lines h,
        )
]

-- What a drain takes is in the order of time.
pub sorted-IsSorted : (lines : List Line) → IsSorted (sorted lines)
unfolding sorted
sorted-IsSorted [] = tt
sorted-IsSorted (l ∷ lines) = insert-IsSorted l (sorted lines) (sorted-IsSorted lines)

-- What a buffer is asked to do: an event of a payload at a time, or a drain
pub data Step : Type 0 where
  emitted : Event → ℕ → ℕ → Step
  drained : Step

module _ (marshal : List ℕ → Event → Option (List ℕ) → ℕ → ℕ → List ℕ) where
  -- The lines that all drains take, and the buffer at the end
  unfoldable pub run : List Step → TraceBuffer → List Line × TraceBuffer
  unfolding take_lines emit
  run [] tb = ([], tb)
  run (emitted event payload now ∷ steps) tb = run steps (emit marshal event payload now tb)
  run (drained ∷ steps) tb =
      let (lines, tb') = take_lines tb in
      let (rest, final) = run steps tb' in (lines ++ rest, final)

  -- The lines of the events that are not dropped
  abbrev pub written : List ℕ → Option (List ℕ) → List Step → List Line
  written ns pc_id [] = []
  written ns pc_id (drained ∷ steps) = written ns pc_id steps
  written ns pc_id (emitted event payload now ∷ steps) =
      let later = written ns pc_id steps in
      let line : Line = record {
        ts = now;
        bytes = marshal (namespace_for event ns) event pc_id payload now;
      } in
      if is_blacklisted event then later else line ∷ later

  -- However emits and drains follow each other, each line is taken by one drain or is still in the
  -- buffer, and there are no others.
  pub lines_kept :
      (passes : Line → Bool) (steps : List Step) (tb : TraceBuffer)
      → count passes (run steps tb).0 + count passes (run steps tb).1.buf
        ≡ count passes tb.buf + count passes (written tb.namespace_bytes tb.pc_id steps)
  unfolding run emit take_lines
  lines_kept passes [] tb = omega arith
  lines_kept passes (emitted event payload now ∷ steps) tb =
      let ns : List ℕ = tb.namespace_bytes in
      let line : Line = record {
        ts = now;
        bytes = marshal (namespace_for event ns) event tb.pc_id payload now;
      } in
      let tb' : TraceBuffer = record tb { buf = tb.buf ++ (line ∷ []) } in
      let later : List Line = written ns tb.pc_id steps in
      let taken : TraceBuffer → ℕ =
        λ t. count passes (run steps t).0 + count passes (run steps t).1.buf in
      elim (Bool-cases (is_blacklisted event)) [
        | inl dropped ↦
            ap (λ b. taken (if b then tb else tb')) dropped
            ∙ lines_kept passes steps tb
            ∙ ap (λ b. count passes tb.buf + count passes (if b then later else line ∷ later))
                (sym dropped)
        | inr stays ↦
            ap (λ b. taken (if b then tb else tb')) stays
            ∙ lines_kept passes steps tb'
            ∙ omega (arith, count-append passes tb.buf (line ∷ []))
            ∙ ap (λ b. count passes tb.buf + count passes (if b then later else line ∷ later))
                (sym stays)
      ]
  lines_kept passes (drained ∷ steps) tb =
      let tb' : TraceBuffer = record tb { buf = [] } in
      omega (
        arith,
        count-append passes (sorted tb.buf) (run steps tb').0,
        count-sorted passes tb.buf,
        lines_kept passes steps tb',
      )
