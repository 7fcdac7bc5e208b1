-- ===== src/Prober/Probes.antt =====
-- interceptor/rtx_prober.go: how many probes are sent, and what they carry.
use native.Mathlib.Nat.{mul-le-mul_right}
use getstream_go_webrtc.Base.{
  ℕ, zero, suc, ◌+◌, ◌*◌, ◌≤◌, ◌≡◌, sym, subst, Bool, true, false, not, Option, none, some, [], ◌∷◌,
  arith, ltb, if◌then◌else◌, length, length-append,
}
use getstream_go_webrtc.Prober.{
  RtxProberConfig, RtxProberStream, Sent, probe_packet, advanced, sent_before, send_batch,
  probe_loop, not_probed, probe_stream,
}

either_sent {κ} : (P : Sent → Type κ) (b : Bool) (x y : Sent) → P x → P y → P (if b then x else y)
either_sent P true x y h h' = h
either_sent P false x y h h' = h'

batch-bounded :
    (fails : ℕ → Bool) (n mid rid : ℕ) (s : RtxProberStream)
    → length (send_batch fails n mid rid s).probes ≤ n
unfolding send_batch
batch-bounded fails zero mid rid s = omega arith
batch-bounded fails (suc n) mid rid s =
    let later : Sent = send_batch fails n mid rid (advanced s) in
    either_sent (λ d. length d.probes ≤ suc n) (fails s.next_seq)
      (record { success = false; probes = probe_packet s mid rid ∷ []; stream = advanced s })
      (sent_before (probe_packet s mid rid ∷ []) later) (omega arith)
      (omega (arith, batch-bounded fails n mid rid (advanced s)))

loop-bounded :
    (fails : ℕ → Bool) (clock : ℕ → ℕ) (c : RtxProberConfig) (turns turn k mid rid : ℕ)
    (s : RtxProberStream)
    → ((j : ℕ) → j * c.interval ≤ clock j)
    → c.duration ≤ (turn + k) * c.interval
    → length (probe_loop fails clock c turns turn mid rid s).probes ≤ k * c.batch_size
unfolding probe_loop
loop-bounded fails clock c zero turn k mid rid s ticks enough = omega arith
loop-bounded fails clock c (suc turns) turn zero mid rid s ticks enough =
    let batch : Sent = send_batch fails c.batch_size mid rid s in
    let later : Sent = probe_loop fails clock c turns (turn + 1) mid rid batch.stream in
    let over : (not (ltb (clock turn) c.duration)) ≡ true = ground (
      arith,
      ticks turn,
      enough,
      mul-le-mul_right c.interval (let same : turn + 0 ≤ turn = omega arith in same),
    ) in
    subst
      (λ b.
        length
          (if b
            then not_probed s
            else if not batch.success
            then batch
            else sent_before batch.probes later).probes
        ≤ 0 * c.batch_size)
      (sym over) (omega arith)
loop-bounded fails clock c (suc turns) turn (suc k) mid rid s ticks enough =
    let batch : Sent = send_batch fails c.batch_size mid rid s in
    let later : Sent = probe_loop fails clock c turns (turn + 1) mid rid batch.stream in
    let more : suc k * c.batch_size ≡ c.batch_size + k * c.batch_size = grind arith in
    let here : length batch.probes ≤ c.batch_size = batch-bounded fails c.batch_size mid rid s in
    let after : length later.probes ≤ k * c.batch_size =
      loop-bounded fails clock c turns (turn + 1) k mid rid batch.stream ticks
        (subst (λ n. c.duration ≤ n * c.interval) {x = turn + suc k} (omega arith) enough) in
    let P : Sent → Type 0 = λ d. length d.probes ≤ suc k * c.batch_size in
    either_sent P (not (ltb (clock turn) c.duration)) (not_probed s)
      (if not batch.success then batch else sent_before batch.probes later) (omega (arith, more))
      (either_sent P (not batch.success) batch (sent_before batch.probes later)
        (omega (arith, more, here))
        (omega (arith, more, here, after, length-append batch.probes later.probes)))

-- However long the prober runs, a stream is sent no more batches than turns of the ticker fit into the
-- duration, if no turn comes before its tick: with n intervals that cover the duration, at most n batches.
pub probes_bounded :
    (fails : ℕ → Bool) (clock : ℕ → ℕ) (c : RtxProberConfig) (turns n : ℕ) (mid rid : Option ℕ)
    (s : RtxProberStream)
    → ((j : ℕ) → j * c.interval ≤ clock j)
    → c.duration ≤ n * c.interval
    → length (probe_stream fails clock c turns mid rid s).probes ≤ n * c.batch_size
unfolding probe_stream
probes_bounded fails clock c turns n none rid s ticks enough =
    either_sent (λ d. length d.probes ≤ n * c.batch_size) s.probed (not_probed s)
      (not_probed (record s { probed = true })) (omega arith) (omega arith)
probes_bounded fails clock c turns n (some m) none s ticks enough =
    either_sent (λ d. length d.probes ≤ n * c.batch_size) s.probed (not_probed s)
      (not_probed (record s { probed = true })) (omega arith) (omega arith)
probes_bounded fails clock c turns n (some m) (some r) s ticks enough =
    let s' : RtxProberStream = record s { probed = true } in
    either_sent (λ d. length d.probes ≤ n * c.batch_size) s.probed (not_probed s)
      (probe_loop fails clock c turns 0 m r s') (omega arith)
      (loop-bounded fails clock c turns 0 n m r s' ticks
        (subst (λ k. c.duration ≤ k * c.interval) {x = n} (omega arith) enough))
