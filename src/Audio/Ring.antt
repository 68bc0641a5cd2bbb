-- ===== src/Audio/Ring.antt =====
-- The methods of `AudioRingBuffer` in backend/src/audio_ring_buffer.cpp.
use multi_radio.Common.{
  ℕ, zero, suc, ◌+◌, ◌-◌, ◌%◌, ◌^◌, Bool, List, [], ◌∷◌, Option, none, some, min, max, ltb, leb,
  ◌==◌, ◌||◌, if◌then◌else◌, get_or, set, replicate,
}

pub record RingBuffer : Type 0 where
  pub capacity : ℕ
  pub buffer : List ℕ
  pub write_pos : ℕ
  pub read_pos : ℕ
  pub fill_count : ℕ
  pub total_written : ℕ
  pub total_read : ℕ
  pub peak_fill_level : ℕ
  pub underrun_events : ℕ

-- `size_t` arithmetic.
abbrev pub size_t : ℕ → ℕ
size_t n = n % 2 ^ 64

unfoldable pub make : ℕ → RingBuffer
make capacity_samples = record {
  capacity = capacity_samples;
  buffer = replicate capacity_samples 0;
  write_pos = 0;
  read_pos = 0;
  fill_count = 0;
  total_written = 0;
  total_read = 0;
  peak_fill_level = 0;
  underrun_events = 0;
}

-- One round of the loop of `Write`, past its test for a full buffer.
unfoldable pub put : RingBuffer → ℕ → RingBuffer
put r x = record r {
  buffer = set r.buffer r.write_pos x;
  write_pos = size_t (r.write_pos + 1) % r.capacity;
  fill_count = size_t (r.fill_count + 1);
  total_written = size_t (r.total_written + 1);
}

-- The loop of `Write` over `samples[i..count)`, with the samples written so far.
unfoldable pub write_loop : RingBuffer → List ℕ → ℕ → ℕ × RingBuffer
write_loop r [] written = (written, r)
write_loop r (x ∷ xs) written =
    let rest = write_loop (put r x) xs (written + 1) in
    if leb r.capacity r.fill_count then (written, r) else rest

abbrev pub raise_peak : ℕ × RingBuffer → ℕ × RingBuffer
raise_peak (n, r) = (n, record r { peak_fill_level = max r.peak_fill_level r.fill_count })

-- `Write(samples, count)`: `none` is a null pointer, and `count` is the length of the list.
unfoldable pub write : RingBuffer → Option (List ℕ) → ℕ × RingBuffer
write r none = (0, r)
write r (some []) = (0, r)
write r (some (x ∷ xs)) = raise_peak (write_loop r (x ∷ xs) 0)

-- One round of the loop of `Read`, with the sample that it copies out.
unfoldable pub get : RingBuffer → ℕ × RingBuffer
get r = (
  get_or r.buffer r.read_pos 0,
  record r {
    read_pos = size_t (r.read_pos + 1) % r.capacity;
    total_read = size_t (r.total_read + 1);
  },
)

-- The loop of `Read`: `to_read` rounds, with the samples copied out.
unfoldable pub read_loop : ℕ → RingBuffer → List ℕ × RingBuffer
read_loop zero r = ([], r)
read_loop (suc k) r = let (x, r') = get r in let (xs, r'') = read_loop k r' in (x ∷ xs, r'')

unfoldable pub note_underrun : RingBuffer → ℕ → RingBuffer
note_underrun r count =
    if ltb r.fill_count count
    then record r { underrun_events = size_t (r.underrun_events + 1) }
    else r

unfoldable pub drain : RingBuffer → ℕ → List ℕ × RingBuffer
unfolding note_underrun
drain r count =
    let to_read = min count r.fill_count in
    let (xs, r') = read_loop to_read (note_underrun r count) in
    (xs, record r' { fill_count = r'.fill_count - to_read })

-- `Read(samples, count)`: `null` says that the pointer is null. The result is what was copied out;
-- its length is the returned count.
unfoldable pub read : RingBuffer → Bool → ℕ → List ℕ × RingBuffer
unfolding drain
read r null count = if null || (count == 0) then ([], r) else drain r count

unfoldable pub available_for_read : RingBuffer → ℕ
available_for_read r = r.fill_count

unfoldable pub available_for_write : RingBuffer → ℕ
available_for_write r = size_t (r.capacity + 2 ^ 64 - r.fill_count)

unfoldable pub clear : RingBuffer → RingBuffer
clear r = record r { write_pos = 0; read_pos = 0; fill_count = 0 }

pub record Stats : Type 0 where
  pub total_written : ℕ
  pub total_read : ℕ
  pub peak_fill_level : ℕ
  pub underrun_events : ℕ

unfoldable pub get_stats : RingBuffer → Stats
get_stats r = record {
  total_written = r.total_written;
  total_read = r.total_read;
  peak_fill_level = r.peak_fill_level;
  underrun_events = r.underrun_events;
}
