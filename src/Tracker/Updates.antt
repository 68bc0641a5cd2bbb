-- ===== src/Tracker/Updates.antt =====
-- What a message changes in the targets of backend/src/target_tracker.cpp, and that it is seen.
use multi_radio.Tracker.Calls.{
  TargetTracker, target_or_new, update, take_snapshot, is_stale, entry_fresh, has_position,
}
use multi_radio.Types.Double.{Doubles}
use multi_radio.Types.Data.{DecodedMessage}
use multi_radio.Common.{
  ℕ, ◌+◌, ◌-◌, ◌≤◌, ◌<◌, ◌≡◌, refl, sym, ap, subst, ◌∙◌, ◌≢◌, inl, inr, Bool, true, false, not,
  ◌&&◌, some, List, [], ◌∷◌, map, arith, ltb, ◌==◌, if◌then◌else◌, Bool-cases, is_empty, keep, Any,
  Any-keep, Bytes, codes, same, lookup, insert, lookup-insert_self, lookup-insert_ne,
}
use multi_radio.Tracker.Target.{
  or_else, TrackedTarget, key_and_kind, field, position_known, updated_target,
}

Any-insert :
    {V : Type 0} (P : Bytes × V → Type 0) (k : Bytes) (v : V) (m : List (Bytes × V))
    → ((j : Bytes) → P (j, v))
    → Any P (insert k v m)
unfolding insert
Any-insert P k v [] f = inl (f k)
Any-insert P k v ((j, w) ∷ m) f = elim (Bool-cases (same j k)) [
  | inl here ↦ rw here (inl (f j))
  | inr other ↦ rw other (inr (Any-insert P k v m f))
]

Any-map :
    {A B : Type 0} (P : B → Type 0) (g : A → B) (xs : List A)
    → Any (λ x. P (g x)) xs
    → Any P (map g xs)
Any-map P g [] h = h
Any-map P g (x ∷ xs) (inl now) = inl now
Any-map P g (x ∷ xs) (inr later) = inr (Any-map P g xs later)

or_else-filled : (s t : Bytes) → is_empty t ≡ false → is_empty (or_else s t) ≡ false
or_else-filled [] t h = h
or_else-filled (c ∷ s) t h = refl

window-fresh :
    (is_sea : Bool) (sea air seen later : ℕ)
    → later ≤ seen + air
    → later ≤ seen + sea
    → (ltb 0 (if is_sea then sea else air) && ltb (if is_sea then sea else air) (later - seen))
      ≡ false
window-fresh true sea air seen later h k = ground arith
window-fresh false sea air seen later h k = ground arith

module _ {D : Type 0} (f : Doubles D) where
  -- The entry that a message leaves.
  abbrev pub entry_after : ℕ → DecodedMessage D → TargetTracker D → TrackedTarget D
  entry_after now msg t =
      let (key, kind) = key_and_kind msg in
      updated_target f (if msg.unix_ms == 0 then now else msg.unix_ms) msg key kind
        (target_or_new f (lookup key t.entries))

  update-entries :
      (now : ℕ) (msg : DecodedMessage D) (t : TargetTracker D)
      → is_empty (key_and_kind msg).0 ≡ false
      → (update f now msg t).0
        ≡ record t { entries = insert (key_and_kind msg).0 (entry_after now msg t) t.entries }
  unfolding update
  update-entries now msg t named = rw named refl

  -- A message with a key changes the entry of that key alone: it then has the key as its id and a
  -- label, and the position of the message where both of its numbers are finite, and else the one it
  -- had. The entry of any other key is as before.
  pub update-entry :
      (now : ℕ) (msg : DecodedMessage D) (t : TargetTracker D) (other : Bytes)
      → is_empty (key_and_kind msg).0 ≡ false
      → (key_and_kind msg).0 ≢ other
      → (e : TrackedTarget D) × (lookup (key_and_kind msg).0 (update f now msg t).0.entries
          ≡ some e)
        × (e.id ≡ (key_and_kind msg).0)
        × (is_empty e.label ≡ false)
        × (e.lat ≡ (
            if position_known f msg
            then field f msg (codes "lat")
            else (target_or_new f (lookup (key_and_kind msg).0 t.entries)).lat))
        × (e.lon ≡ (
            if position_known f msg
            then field f msg (codes "lon")
            else (target_or_new f (lookup (key_and_kind msg).0 t.entries)).lon))
        × (lookup other (update f now msg t).0.entries ≡ lookup other t.entries)
  unfolding updated_target
  update-entry now msg t other named ne =
      let key = (key_and_kind msg).0 in
      let e = entry_after now msg t in
      let entries = ap (λ (t' : TargetTracker D). t'.entries) (update-entries now msg t named) in
      (
        e,
        ap (lookup key) entries ∙ lookup-insert_self key e t.entries,
        refl,
        or_else-filled _ key named,
        refl,
        refl,
        ap (lookup other) entries ∙ lookup-insert_ne key other e t.entries ne,
      )

  entry_after-fresh :
      (now later : ℕ) (msg : DecodedMessage D) (t : TargetTracker D)
      → 0 < msg.unix_ms
      → later ≤ msg.unix_ms + t.air_stale_ms
      → later ≤ msg.unix_ms + t.sea_stale_ms
      → is_stale later t (entry_after now msg t) ≡ false
  unfolding updated_target
  entry_after-fresh now later msg t timed air sea =
      let own_time : (msg.unix_ms == 0) ≡ false = ground (arith, timed) in
      rw own_time (
        window-fresh (same (key_and_kind msg).1 (codes "SEA")) t.sea_stale_ms t.air_stale_ms
          msg.unix_ms later air sea)

  entry_after-placed :
      (now : ℕ) (msg : DecodedMessage D) (t : TargetTracker D)
      → position_known f msg ≡ true
      → ((entry_after now msg t).lat ≡ field f msg (codes "lat"))
        × ((entry_after now msg t).lon ≡ field f msg (codes "lon"))
        × (has_position f (entry_after now msg t) ≡ true)
  unfolding updated_target
  entry_after-placed now msg t placed = rw placed (refl, refl, placed)

  -- The target of a message with a key, a time and a position is in the next snapshot with that
  -- position, if the snapshot comes before the target is stale for either kind.
  pub update-seen :
      (now later : ℕ) (msg : DecodedMessage D) (t : TargetTracker D)
      → is_empty (key_and_kind msg).0 ≡ false
      → 0 < msg.unix_ms
      → position_known f msg ≡ true
      → later ≤ msg.unix_ms + t.air_stale_ms
      → later ≤ msg.unix_ms + t.sea_stale_ms
      → Any
          (λ e.
            (e.id ≡ (key_and_kind msg).0)
            × (e.lat ≡ field f msg (codes "lat"))
            × (e.lon ≡ field f msg (codes "lon")))
          (take_snapshot f later (update f now msg t).0).1.targets
  unfolding updated_target take_snapshot
  update-seen now later msg t named timed placed air sea =
      let key = (key_and_kind msg).0 in
      let e = entry_after now msg t in
      let t' = record t { entries = insert key e t.entries } in
      let fresh = entry_after-fresh now later msg t timed air sea in
      let shown = entry_after-placed now msg t placed in
      let stored = Any-insert (λ entry. entry.1 ≡ e) key e t.entries (λ j. refl) in
      let left =
        Any-keep (λ entry. entry.1 ≡ e) (λ entry. entry.1 ≡ e) (entry_fresh later t')
          (insert key e t.entries)
          (λ entry same_e. (same_e, ap (λ x. not (is_stale later t x)) same_e ∙ ap not fresh))
          stored in
      let listed =
        Any-map (λ x. x ≡ e) (λ entry. entry.1)
          (keep (entry_fresh later t') (insert key e t.entries)) left in
      subst
        (λ t'.
          Any
            (λ e.
              (e.id ≡ key)
              × (e.lat ≡ field f msg (codes "lat"))
              × (e.lon ≡ field f msg (codes "lon")))
            (take_snapshot f later t').1.targets)
        (sym (update-entries now msg t named))
        (Any-keep (λ x. x ≡ e) _ (has_position f)
          (map (λ entry. entry.1) (keep (entry_fresh later t') (insert key e t.entries)))
          (λ x same_e. (
            (
              ap (λ (x : TrackedTarget D). x.id) same_e,
              ap (λ (x : TrackedTarget D). x.lat) same_e ∙ shown.0,
              ap (λ (x : TrackedTarget D). x.lon) same_e ∙ shown.1,
            ),
            ap (has_position f) same_e ∙ shown.2,
          ))
          listed)
