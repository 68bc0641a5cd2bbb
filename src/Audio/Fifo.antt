-- ===== src/Audio/Fifo.antt =====
-- A bounded queue of samples, what a client of `AudioRingBuffer` may rely on: it names neither
-- positions nor a buffer.
use multi_radio.Common.{
  ℕ, ◌-◌, min, Bool, Option, none, some, List, [], ◌∷◌, ◌++◌, if◌then◌else◌, length, take, drop,
}

pub data Op : Type 0 where
  write : Option (List ℕ) → Op
  read : Bool → ℕ → Op
  clear : Op

-- What a caller sees of one call: the samples that it gets, and the returned count.
abbrev pub Reply : Type 0
Reply = List ℕ × ℕ

-- A null pointer offers nothing.
abbrev pub offered : Option (List ℕ) → List ℕ
offered none = []
offered (some xs) = xs

-- One call at a queue bounded by `cap`: its reply and the queue after it.
unfoldable pub step : ℕ → List ℕ → Op → Reply × List ℕ
step cap q (write src) =
    let room = cap - length q in
    (([], min (length (offered src)) room), q ++ take room (offered src))
step cap q (read null n) = if null then (([], 0), q) else ((take n q, min n (length q)), drop n q)
step cap q clear = (([], 0), [])

unfoldable pub run : ℕ → List ℕ → List Op → List Reply
run cap q [] = []
run cap q (op ∷ ops) = let (reply, q') = step cap q op in reply ∷ run cap q' ops
