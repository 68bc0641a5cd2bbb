-- ===== src/EventBus/Stream.antt =====
-- One reader of a channel of backend/src/event_bus.cpp beside any number of publishers: every
-- interleaving of their steps.
use multi_radio.Common.{
  ℕ, zero, suc, ◌≤◌, ◌≡◌, refl, sym, ap, ◌∙◌, Option, none, some, List, [], ◌∷◌, ◌++◌, arith,
  length, get_elem?, take, length-append, ◌+◌, inl, inr, append-nil, append_assoc, ltb,
  if◌then◌else◌, ltb→lt, tests, Bool-cases, get_elem?-some,
}
use multi_radio.EventBus.Channel.{Channel, empty, publish, take_next}
use multi_radio.EventBus.Delivery.{Holds, publish-Holds, empty-Holds, stands, take_next-log}

pub data Step {ℓ} (A : Type ℓ) : Type ℓ where
  published : A → Step A
  polled : Step A

-- The channel, the reader's cursor, and what the reader got so far.
pub record Scene {ℓ} (A : Type ℓ) : Type ℓ where
  pub channel : Channel A
  pub cursor : ℕ
  pub got : List A

module _ {ℓ} {A : Type ℓ} where
  abbrev pub collect : List A → Option A → List A
  collect got none = got
  collect got (some x) = got ++ (x ∷ [])

  unfoldable pub advance : ℕ → Scene A → Step A → Scene A
  advance limit s (published x) = record s { channel = publish limit s.channel x }
  advance limit s polled =
      let (m, cursor') = take_next s.channel s.cursor in
      record s { cursor = cursor'; got = collect s.got m }

  unfoldable pub play : ℕ → Scene A → List (Step A) → Scene A
  play limit s [] = s
  play limit s (e ∷ es) = play limit (advance limit s e) es

  -- All that the steps publish, in order.
  abbrev pub log_of : List (Step A) → List A
  log_of [] = []
  log_of (published x ∷ es) = x ∷ log_of es
  log_of (polled ∷ es) = log_of es

  -- The first scene: an empty channel and a reader at cursor 0.
  abbrev pub opening : Scene A
  opening = record { channel = empty; cursor = 0; got = [] }

  -- The reader has got exactly the first `cursor` messages.
  record UpToDate (limit : ℕ) (log : List A) (s : Scene A) : Type ℓ where
    holds : Holds limit log s.channel
    cursor_in : s.cursor ≤ length log
    prefix : s.got ≡ take s.cursor log

  take-append : (n : ℕ) (xs ys : List A) → n ≤ length xs → take n (xs ++ ys) ≡ take n xs
  take-append zero xs ys h = refl
  take-append (suc n) [] ys h = absurd (omega arith)
  take-append (suc n) (x ∷ xs) ys h = ap (λ l. x ∷ l) (take-append n xs ys (omega arith))

  take-suc :
      (n : ℕ) (xs : List A) (x : A)
      → get_elem? xs n ≡ some x
      → take (suc n) xs ≡ take n xs ++ (x ∷ [])
  take-suc n [] x e = cc
  take-suc zero (y ∷ xs) x e = ground arith
  take-suc (suc n) (y ∷ xs) x e = ap (λ l. y ∷ l) (take-suc n xs x e)

  published-UpToDate :
      (limit : ℕ) (log : List A) (s : Scene A) (x : A)
      → UpToDate limit log s
      → UpToDate limit (log ++ (x ∷ [])) (advance limit s (published x))
  unfolding advance
  published-UpToDate limit log s x v = record {
    holds = publish-Holds limit log s.channel x v.holds;
    cursor_in = omega (arith, length-append log (x ∷ []), v.cursor_in);
    prefix = v.prefix ∙ sym (take-append s.cursor log (x ∷ []) v.cursor_in);
  }

  -- With nothing dropped, a poll takes the next message or finds that there is none.
  polled-UpToDate :
      (limit : ℕ) (log : List A) (s : Scene A)
      → length log ≤ limit
      → UpToDate limit log s
      → UpToDate limit log (advance limit s polled)
  unfolding advance
  polled-UpToDate limit log s h v =
      let here : stands limit log s.cursor ≡ s.cursor = omega arith in
      let polls : take_next s.channel s.cursor ≡ (
          if ltb s.cursor (length log)
          then (get_elem? log s.cursor, s.cursor + 1)
          else (none, s.cursor)) =
        take_next-log limit log s.channel s.cursor v.holds
        ∙ ap (λ i. if ltb i (length log) then (get_elem? log i, i + 1) else (none, i)) here in
      elim (Bool-cases (ltb s.cursor (length log))) [
        | inl more ↦
            let (x, found) = get_elem?-some log s.cursor (ltb→lt _ _ more) in
            let next : s.cursor + 1 ≡ suc s.cursor = omega arith in
            rw (polls, more, found)
              (record {
                holds = v.holds;
                cursor_in = omega tests;
                prefix =
                    ap (λ l. l ++ (x ∷ [])) v.prefix
                    ∙ sym (take-suc s.cursor log x found)
                    ∙ ap (λ n. take n log) (sym next);
              })
        | inr over ↦
            rw (polls, over)
              (record { holds = v.holds; cursor_in = v.cursor_in; prefix = v.prefix })
      ]

  play-UpToDate :
      (limit : ℕ) (es : List (Step A)) (log : List A) (s : Scene A)
      → length (log ++ log_of es) ≤ limit
      → UpToDate limit log s
      → UpToDate limit (log ++ log_of es) (play limit s es)
  unfolding play
  play-UpToDate limit [] log s h v = rw append-nil v
  play-UpToDate limit (published x ∷ es) log s h v =
      let split : log ++ (x ∷ log_of es) ≡ (log ++ (x ∷ [])) ++ log_of es =
        sym (append_assoc log (x ∷ []) (log_of es)) in
      rw split (
        play-UpToDate limit es (log ++ (x ∷ [])) (advance limit s (published x))
          (omega (arith, ap length split, h)) (published-UpToDate limit log s x v))
  play-UpToDate limit (polled ∷ es) log s h v =
      play-UpToDate limit es log (advance limit s polled) h
        (polled-UpToDate limit log s (omega (arith, length-append log (log_of es), h)) v)

  opening-UpToDate : (limit : ℕ) → UpToDate limit [] opening
  opening-UpToDate limit = record {
    holds = empty-Holds limit;
    cursor_in = omega arith;
    prefix = refl;
  }

  -- In every interleaving of publishers with a reader that starts at cursor 0, as long as no more is
  -- published than the channel keeps, the reader has got exactly the messages before its cursor,
  -- each once and in the order of publication, and its cursor lies within what was published.
  pub reader_lossless :
      (limit : ℕ) (es : List (Step A))
      → length (log_of es) ≤ limit
      → let s = play limit opening es in
        (s.got ≡ take s.cursor (log_of es)) × (s.cursor ≤ length (log_of es))
  reader_lossless limit es h =
      let v = play-UpToDate limit es [] opening h (opening-UpToDate limit) in
      (v.prefix, v.cursor_in)
