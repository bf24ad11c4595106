-- ===== src/CommitLog/Append/Correct.antt =====
-- The log as one list of entries, and what an append does to it.
use nsq.Base.{
  ℕ, suc, ◌+◌, ◌≤◌, ◌<◌, ◌≡◌, inl, inr, refl, sym, ap, subst, ◌∙◌, arith, Bool, true, false, List,
  [], ◌∷◌, ◌++◌, append_assoc, append-nil, length, ltb, leb, ◌==◌, Bool-cases,
}
use nsq.CommitLog.Append.{
  LogData, LogFiles, FileSystem, AppendEnd, appended, wrong_id, wrong_last_id, io_failed, panicked,
  flushed, and_then, flush_commit_logs, flush_buffer, rotate, rotate_if_full, keep_entry,
  count_entry, for_slave, append_commit_log, logrotate_num,
}

abbrev pub concat : List (List LogData) → List LogData
concat [] = []
concat (f ∷ fs) = f ++ concat fs

-- The entries of the log, the oldest first.
abbrev pub entries : LogFiles → List LogData
entries s = concat s.rotated ++ (s.file ++ s.committed_logs)

concat-last :
    (fs : List (List LogData)) (f : List LogData) → concat (fs ++ (f ∷ [])) ≡ concat fs ++ f
concat-last [] f = append-nil f
concat-last (g ∷ fs) f = ap (λ x. g ++ x) (concat-last fs f) ∙ sym (append_assoc g (concat fs) f)

-- The buffer holds no more entries than it has room for.
abbrev pub IsBuffered : LogFiles → Type 0
IsBuffered s = length s.committed_logs ≤ s.capacity

-- The same entries, the same id of the last one, and no more in the buffer.
abbrev pub Keeps : LogFiles → LogFiles → Type 0
Keeps s s' =
    (entries s' ≡ entries s)
    × (s'.p_log_id ≡ s.p_log_id)
    × (s'.capacity ≡ s.capacity)
    × (length s'.committed_logs ≤ length s.committed_logs)

-- How a step ends, from the state `s`: as intended, or with the entries kept.
data Ends (s : LogFiles) (After : LogFiles → Type 0) : AppendEnd × LogFiles → Type 0 where
  went : {s' : LogFiles} → After s' → Ends s After (appended, s')
  failed : {s' : LogFiles} → Keeps s s' → Ends s After (io_failed, s')
  panics : {s' : LogFiles} → Keeps s s' → Ends s After (panicked, s')

and_then-Ends :
    {s : LogFiles} {P Q : LogFiles → Type 0} {r : AppendEnd × LogFiles}
    (go : LogFiles → AppendEnd × LogFiles)
    → Ends s P r
    → ((s' : LogFiles) → P s' → Ends s Q (go s'))
    → Ends s Q (and_then r go)
and_then-Ends go (went h) f = f _ h
and_then-Ends go (failed h) f = failed h
and_then-Ends go (panics h) f = panics h

flush_commit_logs-Ends :
    (io : FileSystem) (s : LogFiles)
    → Ends s (λ s'. Keeps s s' × (s'.committed_logs ≡ [])) (flush_commit_logs io s)
unfolding flush_commit_logs
flush_commit_logs-Ends io s = by_buffer s.committed_logs refl
  where
    kept : Keeps s (flushed s)
    kept = (
      ap (λ x. concat s.rotated ++ x) (append-nil (s.file ++ s.committed_logs)),
      refl,
      refl,
      omega arith,
    )

    by_buffer :
        (ls : List LogData)
        → s.committed_logs ≡ ls
        → Ends s (λ s'. Keeps s s' × (s'.committed_logs ≡ [])) (flush_buffer io s ls)
    by_buffer [] e = went ((refl, refl, refl, omega arith), e)
    by_buffer (l ∷ ls) e = elim (Bool-cases io.writes) [
      | inl on ↦ rw on (went (kept, refl))
      | inr off ↦ rw off (panics (refl, refl, refl, omega arith))
    ]

rotated_kept :
    (s s1 : LogFiles)
    → Keeps s s1
    → Keeps s (record s1 { rotated = s1.rotated ++ (s1.file ∷ []); file = [] })
rotated_kept s s1 k = (
  ap (λ x. x ++ s1.committed_logs) (concat-last s1.rotated s1.file)
      ∙ (append_assoc (concat s1.rotated) s1.file s1.committed_logs ∙ k.0),
  k.1,
  k.2,
  k.3,
)

rotate_if_full-Ends : (io : FileSystem) (s : LogFiles) → Ends s (Keeps s) (rotate_if_full io s)
unfolding rotate_if_full rotate
rotate_if_full-Ends io s = elim (Bool-cases (leb logrotate_num s.current_count)) [
  | inl full ↦ rw full (
      and_then-Ends _ (flush_commit_logs-Ends io s) (λ s1 k. elim (Bool-cases io.renames) [
        | inl moved ↦ elim (Bool-cases io.opens) [
          | inl there ↦ elim (Bool-cases io.saves) [
            | inl saved ↦ rw (moved, there, saved) (went (rotated_kept s s1 k.0))
            | inr lost ↦ rw (moved, there, lost) (failed (rotated_kept s s1 k.0))
          ]
          | inr shut ↦ rw (moved, shut) (failed (rotated_kept s s1 k.0))
        ]
        | inr stuck ↦ rw stuck (failed k.0)
      ]))
  | inr room ↦ rw room (went (refl, refl, refl, omega arith))
]

in_buffer : (a f b x : List LogData) → a ++ (f ++ (b ++ x)) ≡ (a ++ (f ++ b)) ++ x
in_buffer a f b x = sym (append_assoc a (f ++ b) x ∙ ap (λ y. a ++ y) (append_assoc f b x))

in_file : (a f b x : List LogData) → b ≡ [] → a ++ ((f ++ x) ++ b) ≡ (a ++ (f ++ b)) ++ x
in_file a f b x e =
    subst (λ c. a ++ ((f ++ x) ++ c) ≡ (a ++ (f ++ c)) ++ x) (sym e)
      (ap (λ y. a ++ y) (append-nil (f ++ x))
        ∙ (sym (append_assoc a f x) ∙ ap (λ y. (a ++ y) ++ x) (sym (append-nil f))))

is_nil : (b : List LogData) → length b ≡ 0 → b ≡ []
is_nil [] e = refl
is_nil (x ∷ xs) e = absurd (omega (arith, e))

length_last : (b : List LogData) (l : LogData) → length (b ++ (l ∷ [])) ≡ length b + 1
length_last [] l = refl
length_last (x ∷ xs) l = ap suc (length_last xs l) ∙ omega arith

-- The entry is the last one of the log.
abbrev pub Adds : LogData → LogFiles → LogFiles → Type 0
Adds l s s' = (entries s' ≡ entries s ++ (l ∷ [])) × IsBuffered s'

keep_entry-Ends :
    (io : FileSystem) (l : LogData) (s : LogFiles)
    → IsBuffered s
    → Ends s (Adds l s) (keep_entry io l s)
unfolding keep_entry
keep_entry-Ends io l s fits = elim (Bool-cases (s.capacity == 0)) [
  | inl direct ↦ elim (Bool-cases io.writes) [
    | inl on ↦
        rw (direct, on)
          (went (
            in_file (concat s.rotated) s.file s.committed_logs (l ∷ [])
                (is_nil s.committed_logs (ground (arith, fits, direct))),
            fits,
          ))
    | inr off ↦ rw (direct, off) (failed (refl, refl, refl, omega arith))
  ]
  | inr buffered ↦ elim (Bool-cases (leb s.capacity (length s.committed_logs))) [
    | inl full ↦
        rw (buffered, full)
          (and_then-Ends _ (flush_commit_logs-Ends io s) (λ s1 k. went (
            in_buffer (concat s1.rotated) s1.file s1.committed_logs (l ∷ [])
                ∙ ap (λ x. x ++ (l ∷ [])) k.0.0,
            (let empty = length_last s1.committed_logs l ∙ ap (λ b. length b + 1) k.1 in
                ground (arith, empty, buffered, k.0.2)),
          )))
    | inr room ↦
        rw (buffered, room)
          (went (
            in_buffer (concat s.rotated) s.file s.committed_logs (l ∷ []),
            ground (arith, room, length_last s.committed_logs l),
          ))
  ]
]

-- The ids of the entries rise, from above `low` to at most `high`.
abbrev pub IsRising : (low high : ℕ) → List LogData → Type 0
IsRising low high [] = low ≤ high
IsRising low high (l ∷ ls) = (low < l.log_id) × IsRising l.log_id high ls

last-IsRising :
    (low high : ℕ) (ls : List LogData) (l : LogData)
    → IsRising low high ls
    → high < l.log_id
    → IsRising low l.log_id (ls ++ (l ∷ []))
last-IsRising low high [] l r above = (omega (arith, r, above), omega arith)
last-IsRising low high (x ∷ xs) l (first, r) above =
    (first, last-IsRising x.log_id high xs l r above)

-- The ids rise to the last id that is kept, and the buffer is not over its capacity.
abbrev pub IsLog : LogFiles → Type 0
IsLog s = IsBuffered s × IsRising 0 s.p_log_id (entries s)

-- What an append does: it adds the entry, refuses it, or fails and keeps the entries.
pub data Appends (s : LogFiles) (l : LogData) : AppendEnd × LogFiles → Type 0 where
  adds :
      {s' : LogFiles}
      → s.p_log_id < l.log_id
      → l.log_id ≤ l.last_msg_log_id
      → entries s' ≡ entries s ++ (l ∷ [])
      → s'.p_log_id ≡ l.log_id
      → Appends s l (appended, s')
  refuses_id : l.log_id ≤ s.p_log_id → Appends s l (wrong_id, s)
  refuses_last_id : l.last_msg_log_id < l.log_id → Appends s l (wrong_last_id, s)
  fails : {s' : LogFiles} → Keeps s s' → Appends s l (io_failed, s')
  panics_in_flush : {s' : LogFiles} → Keeps s s' → Appends s l (panicked, s')

Keeps-IsLog : (s s' : LogFiles) → IsLog s → Keeps s s' → IsLog s'
Keeps-IsLog s s' v k = (
  omega (arith, v.0, k.2, k.3),
  subst (λ h. IsRising 0 h (entries s')) (sym k.1) (subst (IsRising 0 s.p_log_id) (sym k.0) v.1),
)

Keeps-trans : (s s1 s2 : LogFiles) → Keeps s s1 → Keeps s1 s2 → Keeps s s2
Keeps-trans s s1 s2 k q = (q.0 ∙ k.0, q.1 ∙ k.1, q.2 ∙ k.2, omega (arith, k.3, q.3))

-- The entry is written to a log that has the entries of `s`.
store :
    (io : FileSystem) (s s1 : LogFiles) (l : LogData)
    → IsLog s
    → s.p_log_id < l.log_id
    → l.log_id ≤ l.last_msg_log_id
    → Keeps s s1
    → (let r = and_then (keep_entry io l s1) (λ s2. (appended, count_entry l s2)) in
        Appends s l r × IsLog r.1)
store io s s1 l v above within k = stored (keep_entry-Ends io l s1 (Keeps-IsLog s s1 v k).0)
  where
    stored :
        {r : AppendEnd × LogFiles}
        → Ends s1 (Adds l s1) r
        → (let q = and_then r (λ s2. (appended, count_entry l s2)) in Appends s l q × IsLog q.1)
    stored (went {s' = s2} (e, fits)) =
        let q : entries s2 ≡ entries s ++ (l ∷ []) = e ∙ ap (λ x. x ++ (l ∷ [])) k.0 in
        (
          adds above within q refl,
          (
            fits,
            subst (IsRising 0 l.log_id) (sym q)
                (last-IsRising 0 s.p_log_id (entries s) l v.1 above),
          ),
        )
    stored (failed {s' = s2} q) = let p = Keeps-trans s s1 s2 k q in (fails p, Keeps-IsLog s s2 v p)
    stored (panics {s' = s2} q) =
        let p = Keeps-trans s s1 s2 k q in (panics_in_flush p, Keeps-IsLog s s2 v p)

-- The same after a step that keeps the entries.
store_after :
    (io : FileSystem) (s s1 : LogFiles) (l : LogData)
    → IsLog s
    → s.p_log_id < l.log_id
    → l.log_id ≤ l.last_msg_log_id
    → Keeps s s1
    → {r : AppendEnd × LogFiles} → Ends s1 (Keeps s1) r
    → (let q =
          and_then r (λ s2. and_then (keep_entry io l s2) (λ s3. (appended, count_entry l s3))) in
        Appends s l q × IsLog q.1)
store_after io s s1 l v above within k (went {s' = s2} q) =
    store io s s2 l v above within (Keeps-trans s s1 s2 k q)
store_after io s s1 l v above within k (failed {s' = s2} q) =
    let p = Keeps-trans s s1 s2 k q in (fails p, Keeps-IsLog s s2 v p)
store_after io s s1 l v above within k (panics {s' = s2} q) =
    let p = Keeps-trans s s1 s2 k q in (panics_in_flush p, Keeps-IsLog s s2 v p)

-- For a log in which the ids rise and the buffer is not over its capacity: an append adds the entry at
-- the end, or refuses it because its id is not above the last one or its last message's id is
-- below its own, or fails and keeps the entries; after each of these the log is again such a log.
pub append_commit_log_correct :
    (io : FileSystem) (s : LogFiles) (l : LogData) (slave : Bool)
    → IsLog s
    → (let r = append_commit_log io s l slave in Appends s l r × IsLog r.1)
unfolding append_commit_log
append_commit_log_correct io s l slave v = elim (Bool-cases (leb l.log_id s.p_log_id)) [
  | inl old ↦ rw old (refuses_id (ground (arith, old)), v)
  | inr new ↦ elim (Bool-cases (ltb l.last_msg_log_id l.log_id)) [
    | inl bad ↦ rw (new, bad) (refuses_last_id (ground (arith, bad)), v)
    | inr good ↦
        rw (new, good)
          (store_after io s (for_slave l slave s) l v (ground (arith, new)) (ground (arith, good))
            (same slave) (rotate_if_full-Ends io (for_slave l slave s)))
  ]
]
  where
    same : (b : Bool) → Keeps s (for_slave l b s)
    same true = (refl, refl, refl, omega arith)
    same false = (refl, refl, refl, omega arith)
