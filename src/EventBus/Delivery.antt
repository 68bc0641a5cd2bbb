-- ===== src/EventBus/Delivery.antt =====
-- What the channels of backend/src/event_bus.cpp promise: the deque is the end of the sequence of
-- all the messages ever published, and a reader gets that sequence in order, less what was
-- dropped before it came.
use multi_radio.Common.{
  ℕ, zero, suc, ◌+◌, ◌-◌, ◌≤◌, max, ◌≡◌, refl, sym, ap, ◌∙◌, inl, inr, none, List, [], ◌∷◌, ◌++◌,
  arith, ltb, if◌then◌else◌, tests, Bool-cases, length, get_elem?, drop, length-append, length-drop,
  get_elem?-drop,
}
use multi_radio.EventBus.Channel.{
  Channel, empty, trim, publish, catch_up, has_data, take_next, cursor_now,
}

module _ {ℓ} {A : Type ℓ} where
  -- The channel holds the last `limit` messages of `log`, all that was published.
  pub record Holds (limit : ℕ) (log : List A) (c : Channel A) : Type ℓ where
    pub window : c.messages ≡ drop c.base_index log
    pub base_at : c.base_index ≡ length log - limit

  drop-suc : (n : ℕ) (xs : List A) (y : A) (ys : List A) → y ∷ ys ≡ drop n xs → ys ≡ drop (suc n) xs
  drop-suc zero [] y ys e = cc
  drop-suc zero (x ∷ xs) y ys e = cc
  drop-suc (suc n) [] y ys e = cc
  drop-suc (suc n) (x ∷ xs) y ys e = drop-suc n xs y ys e

  drop-append : (n : ℕ) (xs ys : List A) → n ≤ length xs → drop n (xs ++ ys) ≡ drop n xs ++ ys
  drop-append zero xs ys h = refl
  drop-append (suc n) [] ys h = absurd (omega arith)
  drop-append (suc n) (x ∷ xs) ys h = drop-append n xs ys (omega arith)

  -- The loop stops at the first message that leaves no more than `limit`.
  trim-Holds :
      (limit : ℕ) (log xs : List A) (base : ℕ)
      → xs ≡ drop base log
      → base ≤ length log - limit
      → Holds limit log (trim limit xs base)
  unfolding trim
  trim-Holds limit log [] base e h = record {
    window = e;
    base_at = omega (arith, ap length e, length-drop base log);
  }
  trim-Holds limit log (x ∷ xs) base e h = elim (Bool-cases (ltb limit (length (x ∷ xs)))) [
    | inl long ↦
        let next : base + 1 ≡ suc base = omega arith in
        let room : suc base ≤ length log - limit =
          omega (tests, ap length e, length-drop base log) in
        rw (long, next) (trim-Holds limit log xs (suc base) (drop-suc base log x xs e) room)
    | inr fits ↦
        let short : length (x ∷ xs) ≤ limit = ground arith in
        rw fits
          (record { window = e; base_at = omega (arith, short, ap length e, length-drop base log) })
  ]

  pub empty-Holds : (limit : ℕ) → Holds limit [] empty
  unfolding empty
  empty-Holds limit = record { window = refl; base_at = omega arith }

  -- Publishing a message on a channel that holds the last messages of a log leaves it holding the
  -- last messages of the log with that message, as many as the limit.
  pub publish-Holds :
      (limit : ℕ) (log : List A) (c : Channel A) (x : A)
      → Holds limit log c
      → Holds limit (log ++ (x ∷ [])) (publish limit c x)
  unfolding publish
  publish-Holds limit log c x v =
      trim-Holds limit (log ++ (x ∷ [])) (c.messages ++ (x ∷ [])) c.base_index
        (ap (λ l. l ++ (x ∷ [])) v.window
          ∙ sym (drop-append c.base_index log (x ∷ []) (omega (arith, v.base_at))))
        (omega (arith, length-append log (x ∷ []), v.base_at))

  -- Where a reader at `cursor` stands: at its cursor, or at the oldest message kept.
  abbrev pub stands : ℕ → List A → ℕ → ℕ
  stands limit log cursor = max cursor (length log - limit)

  catch_up-stands :
      (limit : ℕ) (log : List A) (c : Channel A) (cursor : ℕ)
      → Holds limit log c
      → catch_up c cursor ≡ stands limit log cursor
  unfolding catch_up
  catch_up-stands limit log c cursor v = ground (arith, v.base_at)

  end-of-log :
      (limit : ℕ) (log : List A) (c : Channel A)
      → Holds limit log c
      → c.base_index + length c.messages ≡ length log
  end-of-log limit log c v =
      omega (arith, ap length v.window, length-drop c.base_index log, v.base_at)

  -- `WaitFor…` returns the message of the log at which the reader stands, whenever there is one,
  -- and moves the cursor past it; otherwise it returns nothing.
  pub take_next-log :
      (limit : ℕ) (log : List A) (c : Channel A) (cursor : ℕ)
      → Holds limit log c
      → let at = stands limit log cursor in
        take_next c cursor
        ≡ (if ltb at (length log) then (get_elem? log at, at + 1) else (none, at))
  unfolding take_next has_data
  take_next-log limit log c cursor v =
      let at = catch_up-stands limit log c cursor v in
      let past : stands limit log cursor ≡ c.base_index + (stands limit log cursor - c.base_index) =
        omega (arith, v.base_at) in
      let found : get_elem? c.messages (stands limit log cursor - c.base_index)
          ≡ get_elem? log (stands limit log cursor) =
        ap (λ l. get_elem? l (stands limit log cursor - c.base_index)) v.window
        ∙ get_elem?-drop c.base_index log (stands limit log cursor - c.base_index)
        ∙ ap (get_elem? log) (sym past) in
      rw (at, end-of-log limit log c v, found)

  -- On a channel that holds the last messages of a log, the cursor of now stands at the end of the
  -- log.
  pub cursor_now-log :
      (limit : ℕ) (log : List A) (c : Channel A) → Holds limit log c → cursor_now c ≡ length log
  unfolding cursor_now
  cursor_now-log limit log c v = end-of-log limit log c v
