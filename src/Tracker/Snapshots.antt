-- ===== src/Tracker/Snapshots.antt =====
-- What `TakeSnapshot` of backend/src/target_tracker.cpp leaves and what it hands out.
use multi_radio.Tracker.Target.{TrackedTarget}
use multi_radio.Common.{
  ℕ, ◌+◌, ◌≡◌, refl, ap, inl, inr, Bool, true, not, List, [], ◌∷◌, map, arith, Bool-cases, length,
  keep, All, length-append, length-map, All-keep, keep-keep, Bytes,
}
use multi_radio.Types.Double.{Doubles}
use multi_radio.Tracker.Calls.{TargetTracker, entry_fresh, take_snapshot, entry_stale, has_position}

length-keep :
    {A : Type 0} (p : A → Bool) (xs : List A)
    → length (keep p xs) + length (keep (λ x. not (p x)) xs) ≡ length xs
length-keep p [] = omega arith
length-keep p (x ∷ xs) = elim (Bool-cases (p x)) [
  | inl kept ↦ rw kept (omega (arith, length-keep p xs))
  | inr gone ↦ rw gone (omega (arith, length-keep p xs))
]

keep-none : {A : Type 0} (p : A → Bool) (xs : List A) → keep p (keep (λ x. not (p x)) xs) ≡ []
keep-none p [] = refl
keep-none p (x ∷ xs) = elim (Bool-cases (p x)) [
  | inl gone ↦ rw (gone, keep-none p xs) refl
  | inr kept ↦ rw (kept, kept, keep-none p xs) refl
]

module _ {D : Type 0} (f : Doubles D) where
  -- After a snapshot no entry is stale any more; the entries that are left and the ids handed out are
  -- as many as the entries and the ids that were pending before; a second snapshot at the same time
  -- changes nothing, has the same targets and hands out no id.
  pub take_snapshot-stable :
      (now : ℕ) (t : TargetTracker D)
      → All (λ entry. entry_fresh now t entry ≡ true) (take_snapshot f now t).0.entries
        × (length (take_snapshot f now t).0.entries + length (take_snapshot f now t).1.removed_ids
            ≡ length t.entries + length t.pending_removed)
        × ((take_snapshot f now (take_snapshot f now t).0).0 ≡ (take_snapshot f now t).0)
        × ((take_snapshot f now (take_snapshot f now t).0).1.targets
            ≡ (take_snapshot f now t).1.targets)
        × ((take_snapshot f now (take_snapshot f now t).0).1.removed_ids ≡ [])
  unfolding take_snapshot
  take_snapshot-stable now t =
      let fresh = entry_fresh now t in
      let again = keep-keep fresh t.entries in
      (
        All-keep fresh t.entries,
        omega (
          arith,
          length-keep (entry_stale now t) t.entries,
          length-append t.pending_removed
              (map (λ entry. entry.0) (keep (entry_stale now t) t.entries)),
          length-map (keep (entry_stale now t) t.entries)
              (λ (entry : Bytes × TrackedTarget D). entry.0),
        ),
        ap (λ left. record t { entries = left; pending_removed = [] }) again,
        ap (λ left. keep (has_position f) (map (λ (entry : Bytes × TrackedTarget D). entry.1) left))
            again,
        ap (map (λ (entry : Bytes × TrackedTarget D). entry.0))
            (keep-none (entry_stale now t) t.entries),
      )
