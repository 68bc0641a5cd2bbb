-- ===== src/Manager/Lookup.antt =====
-- How a call of backend/src/receiver_manager.cpp reaches its worker and puts it back.
use multi_radio.Common.{
  ℕ, suc, ◌≡◌, refl, sym, ap, ◌∙◌, ◌≢◌, inl, inr, true, false, Option, none, some, List, [], ◌∷◌,
  arith, ◌==◌, Bool-cases, Option-cases, get_elem?,
}
use multi_radio.Worker.Lifecycle.{ReceiverWorker, Outcome, status}
use multi_radio.Manager.Calls.{find_worker, worker_at, put_back, call_on, call_at, on_worker}

abbrev next : Option ℕ → Option ℕ
next none = none
next (some i) = some (suc i)

some-injective : {A : Type 0} (a b : A) → some a ≡ some b → a ≡ b
some-injective a b h = ground (arith, h)

none-some : {A : Type 0} (a : A) → none ≡ some a → ⊥
none-some a h = ground (arith, h)

module _ {D : Type 0} where
  -- The worker that a call for an id reaches.
  abbrev pub worker_of : ℕ → List (ReceiverWorker D) → Option (ReceiverWorker D)
  worker_of id ws = worker_at (find_worker id ws) ws

  abbrev cons_result :
      ReceiverWorker D
      → Option (List (ReceiverWorker D) × Outcome D)
      → Option (List (ReceiverWorker D) × Outcome D)
  cons_result w none = none
  cons_result w (some (ws, o)) = some (w ∷ ws, o)

  put_back-later :
      (v : ReceiverWorker D) (ws : List (ReceiverWorker D)) (i : ℕ)
      (r : Option (ReceiverWorker D × Outcome D))
      → put_back (v ∷ ws) (suc i) r ≡ cons_result v (put_back ws i r)
  put_back-later v ws i none = refl
  put_back-later v ws i (some (w, o)) = refl

  call_on-later :
      (call : ReceiverWorker D → Option (ReceiverWorker D × Outcome D)) (v : ReceiverWorker D)
      (ws : List (ReceiverWorker D)) (i : ℕ) (found : Option (ReceiverWorker D))
      → call_on call (v ∷ ws) (suc i) found ≡ cons_result v (call_on call ws i found)
  call_on-later call v ws i none = refl
  call_on-later call v ws i (some w) = put_back-later v ws i (call w)

  call_at-later :
      (call : ReceiverWorker D → Option (ReceiverWorker D × Outcome D)) (v : ReceiverWorker D)
      (ws : List (ReceiverWorker D)) (k : Option ℕ)
      → call_at call (v ∷ ws) (next k) ≡ cons_result v (call_at call ws k)
  call_at-later call v ws none = refl
  call_at-later call v ws (some i) = call_on-later call v ws i (get_elem? ws i)

  find_worker-here :
      (id : ℕ) (w : ReceiverWorker D) (ws : List (ReceiverWorker D))
      → (w.receiver_id == id) ≡ true
      → find_worker id (w ∷ ws) ≡ some 0
  unfolding find_worker status
  find_worker-here id w ws here = rw here refl

  find_worker-later :
      (id : ℕ) (w : ReceiverWorker D) (ws : List (ReceiverWorker D))
      → (w.receiver_id == id) ≡ false
      → find_worker id (w ∷ ws) ≡ next (find_worker id ws)
  unfolding find_worker status
  find_worker-later id w ws other = elim (Option-cases (find_worker id ws)) [
    | inl lost ↦ rw (other, lost) refl
    | inr (i, found) ↦ rw (other, found) refl
  ]

  worker_of-here :
      (id : ℕ) (w : ReceiverWorker D) (ws : List (ReceiverWorker D))
      → (w.receiver_id == id) ≡ true
      → worker_of id (w ∷ ws) ≡ some w
  worker_of-here id w ws here = ap (λ k. worker_at k (w ∷ ws)) (find_worker-here id w ws here)

  worker_at-next :
      (w : ReceiverWorker D) (ws : List (ReceiverWorker D)) (k : Option ℕ)
      → worker_at (next k) (w ∷ ws) ≡ worker_at k ws
  worker_at-next w ws none = refl
  worker_at-next w ws (some i) = refl

  worker_of-later :
      (id : ℕ) (w : ReceiverWorker D) (ws : List (ReceiverWorker D))
      → (w.receiver_id == id) ≡ false
      → worker_of id (w ∷ ws) ≡ worker_of id ws
  worker_of-later id w ws other =
      ap (λ k. worker_at k (w ∷ ws)) (find_worker-later id w ws other)
      ∙ worker_at-next w ws (find_worker id ws)

  -- Workers with the same id in front of the same list are passed over alike.
  worker_of-cons :
      (j : ℕ) (w w' : ReceiverWorker D) (ws ws' : List (ReceiverWorker D))
      → (w'.receiver_id == j) ≡ false
      → (w.receiver_id == j) ≡ false
      → worker_of j ws' ≡ worker_of j ws
      → worker_of j (w' ∷ ws') ≡ worker_of j (w ∷ ws)
  worker_of-cons j w w' ws ws' other' other same_rest =
      worker_of-later j w' ws' other' ∙ same_rest ∙ sym (worker_of-later j w ws other)

  worker_of-skip :
      (j : ℕ) (v : ReceiverWorker D) (ws ws' : List (ReceiverWorker D))
      → worker_of j ws' ≡ worker_of j ws
      → worker_of j (v ∷ ws') ≡ worker_of j (v ∷ ws)
  worker_of-skip j v ws ws' same_rest = elim (Bool-cases (v.receiver_id == j)) [
    | inl here ↦ worker_of-here j v ws' here ∙ sym (worker_of-here j v ws here)
    | inr other ↦ worker_of-cons j v v ws ws' other other same_rest
  ]

  worker_of-nil : (id : ℕ) → worker_of id [] ≡ none
  unfolding find_worker
  worker_of-nil id = refl

  pub on_worker-found :
      (id : ℕ) (call : ReceiverWorker D → Option (ReceiverWorker D × Outcome D))
      (ws : List (ReceiverWorker D)) (w w' : ReceiverWorker D) (o : Outcome D) (j : ℕ)
      → worker_of id ws ≡ some w
      → call w ≡ some (w', o)
      → w'.receiver_id ≡ w.receiver_id
      → j ≢ id
      → (ws' : List (ReceiverWorker D)) × (on_worker id call ws ≡ some (ws', o))
        × (worker_of id ws' ≡ some w')
        × (worker_of j ws' ≡ worker_of j ws)
  unfolding on_worker
  on_worker-found id call [] w w' o j found done kept ne =
      absurd (none-some w (sym (worker_of-nil id) ∙ found))
  on_worker-found id call (v ∷ ws) w w' o j found done kept ne =
      elim (Bool-cases (v.receiver_id == id)) [
        | inl here ↦
            let v_is_w = some-injective v w (sym (worker_of-here id v ws here) ∙ found) in
            let called = ap call v_is_w ∙ done in
            let same_id : v.receiver_id ≡ w.receiver_id = ap (λ x. x.receiver_id) v_is_w in
            let here' : (w'.receiver_id == id) ≡ true = ground (arith, kept, same_id, here) in
            let passed' : (w'.receiver_id == j) ≡ false = ground (arith, here', ne) in
            let passed : (v.receiver_id == j) ≡ false = ground (arith, here, ne) in
            (
              w' ∷ ws,
              ap (call_at call (v ∷ ws)) (find_worker-here id v ws here)
                  ∙ ap (put_back (v ∷ ws) 0) called,
              worker_of-here id w' ws here',
              worker_of-cons j v w' ws ws passed' passed refl,
            )
        | inr other ↦
            let (ws', goes, there, rest) =
              on_worker-found id call ws w w' o j (sym (worker_of-later id v ws other) ∙ found) done
                kept ne in
            (
              v ∷ ws',
              ap (call_at call (v ∷ ws)) (find_worker-later id v ws other)
                  ∙ call_at-later call v ws (find_worker id ws)
                  ∙ ap (cons_result v) goes,
              worker_of-later id v ws' other ∙ there,
              worker_of-skip j v ws ws' rest,
            )
      ]
