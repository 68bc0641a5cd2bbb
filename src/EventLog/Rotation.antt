-- ===== src/EventLog/Rotation.antt =====
-- What the rotation of backend/src/jsonl_logger.cpp keeps.
use multi_radio.Common.{
  ℕ, zero, suc, ◌<◌, ◌≡◌, refl, sym, ap, ap₂, subst, ◌∙◌, ◌⊎◌, inl, inr, false, none, some, List,
  [], ◌∷◌, ◌++◌, append-nil, append_assoc, arith, ltb, leb, ◌==◌, if◌then◌else◌, ==_iff, ==_refl,
  Bool-cases, Option-cases, length, Bytes,
}
use multi_radio.EventLog.Logger.{
  Files, move_file, shift_files, put_file, JsonlLogger, text_of, rotate_if_needed, ensure_open,
  log_line, log_all,
}

-- Where the texts of the numbered files stand behind the loop: each is one further.
abbrev pub shifted_from : ℕ → Files → Files
shifted_from n files zero = if n == 0 then files 0 else none
shifted_from n files (suc j) = if leb (suc j) n then files j else files (suc j)

move_file-at :
    (i : ℕ) (files : Files) (j : ℕ)
    → files (suc i) ≡ none
    → move_file i (suc i) (files i) files j
      ≡ (if j == i then none else if j == suc i then files i else files j)
unfolding move_file
move_file-at i files j free = elim (Option-cases (files i)) [
  | inl e ↦ elim (Bool-cases (j == i)) [
    | inl at ↦ rw (e, at) (ap files ((==_iff j i).0 at) ∙ e)
    | inr off ↦ elim (Bool-cases (j == suc i)) [
      | inl above ↦ rw (e, off, above) (ap files ((==_iff j (suc i)).0 above) ∙ free)
      | inr other ↦ rw (e, off, other) refl
    ]
  ]
  | inr (text, e) ↦ rw (e) refl
]

-- One round more.
shifted_from-next :
    (i : ℕ) (files : Files) (j : ℕ)
    → files (suc i) ≡ none
    → shifted_from i (move_file i (suc i) (files i) files) j ≡ shifted_from (suc i) files j
shifted_from-next zero files zero free = move_file-at 0 files 0 free
shifted_from-next (suc i) files zero free = ground arith
shifted_from-next i files (suc k) free =
    let at = move_file-at i files k free in
    let above = move_file-at i files (suc k) free in grind (arith, at, above)

shift_files-below :
    (max_files i : ℕ) (files : Files) (j : ℕ)
    → i < max_files
    → files i ≡ none
    → shift_files max_files i files j ≡ shifted_from i files j
unfolding shift_files
shift_files-below max_files zero files zero h free = refl
shift_files-below max_files zero files (suc j) h free = ground arith
shift_files-below max_files (suc i) files j h free =
    let not_last : (suc i == max_files) ≡ false = ground (arith, h) in
    let next = move_file i (suc i) (files i) files in
    rw (not_last) (
      shift_files-below max_files i next j (omega (arith, h))
        (move_file-at i files i free ∙ rw (==_refl i) refl)
      ∙ shifted_from-next i files j free)

-- The file that is removed has no place behind the loop.
shifted_from-removed :
    (n : ℕ) (files : Files) (j : ℕ)
    → shifted_from (suc n) (put_file (suc n) none files) j ≡ shifted_from (suc n) files j
shifted_from-removed n files zero = ground arith
shifted_from-removed n files (suc j) = ground arith

-- The whole loop: the last file is removed and each of the others is one further.
pub shift_files-all :
    (max_files : ℕ) (files : Files) (j : ℕ)
    → shift_files max_files max_files files j ≡ shifted_from max_files files j
unfolding shift_files
shift_files-all zero files zero = refl
shift_files-all zero files (suc j) = ground arith
shift_files-all (suc n) files j =
    let removed = put_file (suc n) none files in
    let free : removed (suc n) ≡ none = rw (==_refl (suc n)) refl in
    let next = move_file n (suc n) (removed n) removed in
    rw (==_refl (suc n)) (
      shift_files-below (suc n) n next j (omega arith)
        (move_file-at n removed n free ∙ rw (==_refl n) refl)
      ∙ shifted_from-next n removed j free
      ∙ shifted_from-removed n files j)

-- The texts of the files below a number, the last file first.
unfoldable pub texts_below : ℕ → Files → Bytes
texts_below zero files = []
texts_below (suc n) files = text_of (files n) ++ texts_below n files

-- What the log holds: the numbered files up to the last, and the current one.
unfoldable pub log_text : JsonlLogger → Bytes
log_text l = texts_below (suc l.max_files) l.numbered ++ text_of l.current

texts_below-shifted :
    (n : ℕ) (files files' : Files)
    → ((j : ℕ) → j < n → files' (suc j) ≡ files j)
    → texts_below (suc n) files' ≡ texts_below n files ++ text_of (files' 0)
unfolding texts_below
texts_below-shifted zero files files' moved = append-nil (text_of (files' 0))
texts_below-shifted (suc n) files files' moved =
    ap₂ (λ text behind. text_of text ++ behind) (moved n (omega arith))
      (texts_below-shifted n files files' (λ j h. moved j (omega (arith, h))))
    ∙ sym (append_assoc (text_of (files n)) (texts_below n files) (text_of (files' 0)))

-- The numbered files behind a rotation.
abbrev pub rotated : JsonlLogger → Files
rotated l = put_file 0 l.current (shift_files l.max_files l.max_files l.numbered)

rotated-moved : (l : JsonlLogger) (j : ℕ) → j < l.max_files → rotated l (suc j) ≡ l.numbered j
rotated-moved l j h =
    let all = shift_files-all l.max_files l.numbered (suc j) in ground (arith, all, h)

-- Only the last of the numbered files is lost by a rotation.
rotated-log_text :
    (l : JsonlLogger)
    → text_of (l.numbered l.max_files)
        ++ log_text (record l { current = some []; numbered = rotated l })
      ≡ log_text l
unfolding log_text texts_below
rotated-log_text l =
    let last = text_of (l.numbered l.max_files) in
    ap (λ text. last ++ text)
      (append-nil (texts_below (suc l.max_files) (rotated l))
        ∙ texts_below-shifted l.max_files l.numbered (rotated l) (rotated-moved l))
    ∙ sym (append_assoc last (texts_below l.max_files l.numbered) (text_of l.current))

-- What is dropped is nothing, or the text of the last of the numbered files.
abbrev pub IsDropped : JsonlLogger → Bytes → Type 0
IsDropped l dropped = (dropped ≡ []) ⊎ (dropped ≡ text_of (l.numbered l.max_files))

rotate_if_needed-log_text :
    (l : JsonlLogger)
    → (dropped : Bytes) × IsDropped l dropped
      × (dropped ++ log_text (rotate_if_needed l) ≡ log_text l)
unfolding rotate_if_needed log_text
rotate_if_needed-log_text l = elim (Bool-cases l.is_open) [
  | inl open_there ↦ elim (Bool-cases (ltb (length (text_of l.current)) l.max_bytes)) [
    | inl small ↦ rw (open_there, small) ([], inl refl, refl)
    | inr large ↦
        rw (open_there, large) (text_of (l.numbered l.max_files), inr refl, rotated-log_text l)
  ]
  | inr closed ↦ rw (closed) ([], inl refl, refl)
]

-- The file that a line is written to.
abbrev pub written : Bytes → JsonlLogger → JsonlLogger
unfolding ensure_open
written json l =
    let open_log = ensure_open l in
    record open_log { current = some (text_of open_log.current ++ (json ++ (10 ∷ []))) }

written-log_text :
    (json : Bytes) (l : JsonlLogger)
    → (log_text (written json l) ≡ log_text l ++ (json ++ (10 ∷ [])))
      × (text_of ((written json l).numbered (written json l).max_files)
          ≡ text_of (l.numbered l.max_files))
unfolding ensure_open log_text
written-log_text json l = elim (Bool-cases l.is_open) [
  | inl open_there ↦ rw (open_there) (
    sym (
        append_assoc (texts_below (suc l.max_files) l.numbered) (text_of l.current)
          (json ++ (10 ∷ []))),
    refl,
  )
  | inr closed ↦ rw (closed) (
    sym (
        append_assoc (texts_below (suc l.max_files) l.numbered) (text_of l.current)
          (json ++ (10 ∷ []))),
    refl,
  )
]

-- A line is written behind everything that the log holds, whether or not the files are rotated, and
-- nothing goes but the text of the last of the numbered files.
pub log_line-kept :
    (json : Bytes) (l : JsonlLogger)
    → (dropped : Bytes) × IsDropped l dropped
      × (dropped ++ log_text (log_line json l) ≡ log_text l ++ (json ++ (10 ∷ [])))
unfolding log_line written
log_line-kept json l =
    let (dropped, is_dropped, kept) = rotate_if_needed-log_text (written json l) in
    let (appended, same_last) = written-log_text json l in
    (
      dropped,
      subst (λ text. (dropped ≡ []) ⊎ (dropped ≡ text)) same_last is_dropped,
      kept ∙ appended,
    )

-- Lines that are logged, each with its line feed.
unfoldable pub lines_text : List Bytes → Bytes
lines_text [] = []
lines_text (json ∷ lines) = json ++ (10 ∷ lines_text lines)

-- Whatever is logged, and however often the files are rotated, the log holds the end of what it held
-- and what was logged since, in order.
pub log_all-kept :
    (lines : List Bytes) (l : JsonlLogger)
    → (dropped : Bytes) × (dropped ++ log_text (log_all lines l) ≡ log_text l ++ lines_text lines)
unfolding log_all lines_text
log_all-kept [] l = ([], sym (append-nil (log_text l)))
log_all-kept (json ∷ lines) l =
    let (first, is_dropped, kept) = log_line-kept json l in
    let (later, rest) = log_all-kept lines (log_line json l) in
    (
      first ++ later,
      append_assoc first later (log_text (log_all lines (log_line json l)))
          ∙ ap (λ text. first ++ text) rest
          ∙ sym (append_assoc first (log_text (log_line json l)) (lines_text lines))
          ∙ ap (λ text. text ++ lines_text lines) kept
          ∙ append_assoc (log_text l) (json ++ (10 ∷ [])) (lines_text lines)
          ∙ ap (λ text. log_text l ++ text) (append_assoc json (10 ∷ []) (lines_text lines)),
    )
