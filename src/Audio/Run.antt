-- ===== src/Audio/Run.antt =====
-- Any sequence of calls on the ring of backend/src/audio_ring_buffer.cpp.
use multi_radio.Common.{
  ℕ, ◌^◌, ◌<◌, ◌≡◌, refl, ap, true, false, List, [], ◌∷◌, arith, length, take, length-take, ap₂,
  ◌∙◌,
}
use multi_radio.Audio.Ring.{RingBuffer, make, write, read, clear}
use multi_radio.Audio.Invariant.{IsValid, make-Shape}
use multi_radio.Audio.Queue.{contents, length-contents}
use multi_radio.Audio.Refine.{Refines, write-Refines, read-Refines, clear-Refines}
use multi_radio.Audio.Fifo
use multi_radio.Audio.Fifo.{Op, Reply}

-- One call on the ring, and what the caller sees of it.
pub step : RingBuffer → Op → Reply × RingBuffer
step r (Op.write src) = let (n, r') = write r src in (([], n), r')
step r (Op.read null n) = let (xs, r') = read r null n in ((xs, length xs), r')
step r Op.clear = (([], 0), clear r)

pub run : RingBuffer → List Op → List Reply
run r [] = []
run r (op ∷ ops) = let (reply, r') = step r op in reply ∷ run r' ops

step-Refines :
    (r : RingBuffer) (op : Op)
    → IsValid r
    → ((step r op).0 ≡ (Fifo.step r.capacity (contents r) op).0)
      × Refines r (Fifo.step r.capacity (contents r) op).1 (step r op).1
unfolding step Fifo.step
step-Refines r (Op.write src) v =
    let (count, after) = write-Refines r src v in
    rw (length-contents r) (ap (λ n. ([], n)) count, after)
step-Refines r (Op.read true n) v = (rw (read-Refines r true n v).0, (read-Refines r true n v).1)
step-Refines r (Op.read false n) v =
    let (copied, after) = read-Refines r false n v in
    (rw copied (ap (λ k. (take n (contents r), k)) (length-take n (contents r))), after)
step-Refines r Op.clear v = (refl, clear-Refines r v)

run_refines_from :
    (ops : List Op) (r : RingBuffer) → IsValid r → run r ops ≡ Fifo.run r.capacity (contents r) ops
unfolding run Fifo.run
run_refines_from [] r v = refl
run_refines_from (op ∷ ops) r v =
    let (reply, after) = step-Refines r op v in
    let later = run_refines_from ops (step r op).1 after.valid in
    ap₂ ◌∷◌ reply (later ∙ ap₂ (λ c q. Fifo.run c q ops) after.same_capacity after.queue)

make-IsValid : (n : ℕ) → n < 2 ^ 63 → IsValid (make n)
unfolding make
make-IsValid n h = record { shape = make-Shape n h; peak_over = omega arith; peak_in = omega arith }

-- No sequence of calls of `Write`, `Read` and `Clear` tells a ring made with any capacity below
-- 2 ^ 63 from the empty queue bounded by that capacity: each call copies out the same samples and
-- returns the same count.
pub run_refines :
    (capacity : ℕ) (ops : List Op)
    → capacity < 2 ^ 63
    → run (make capacity) ops ≡ Fifo.run capacity [] ops
unfolding make
run_refines capacity ops h = run_refines_from ops (make capacity) (make-IsValid capacity h)
