-- ===== src/Raft/Log.antt =====
-- trading/src/consensus/raft.rs: the operations on the list of log entries.
use actix_pura.Prelude.{
  ℕ, Bool, Option, none, some, List, [], ◌∷◌, ◌++◌, ◌&&◌, ◌||◌, ltb, leb, ◌==◌, if◌then◌else◌,
  map_or, any, last, add64,
}
use actix_pura.Raft.Types.{LogEntry}

module _ {C : Type 0} where
  -- `log.last().map(|entry| entry.index).unwrap_or(0)`, and the same for the term.
  abbrev pub last_index : List (LogEntry C) → ℕ
  last_index l = map_or 0 (λ e. e.index) (last l)

  abbrev pub last_term : List (LogEntry C) → ℕ
  last_term l = map_or 0 (λ e. e.term) (last l)

  -- `log.last().map(|entry| entry.index + 1).unwrap_or(1)`
  abbrev pub next_log_index : List (LogEntry C) → ℕ
  next_log_index l = map_or 1 (λ e. add64 e.index 1) (last l)

  -- `log.iter().find(|e| e.index == i)`
  unfoldable pub entry_at : ℕ → List (LogEntry C) → Option (LogEntry C)
  entry_at i [] = none
  entry_at i (e ∷ l) = if e.index == i then some e else entry_at i l

  -- `log.iter().any(|e| e.index == i)`
  unfoldable pub has_index : ℕ → List (LogEntry C) → Bool
  has_index i [] = Bool.false
  has_index i (e ∷ l) = if e.index == i then Bool.true else has_index i l

  -- `prev_log_index == 0 || log.iter().any(|entry| ...)`
  unfoldable pub log_consistent : ℕ → ℕ → List (LogEntry C) → Bool
  log_consistent i t l = i == 0 || any (λ e. e.index == i && e.term == t) l

  -- The term of the entry before the next one to send.
  unfoldable pub prev_term : ℕ → List (LogEntry C) → ℕ
  prev_term i l = if ltb 0 i then map_or 0 (λ e. e.term) (entry_at i l) else 0

  -- `log.retain(|entry| entry.index <= prev_log_index)`
  unfoldable pub truncate : ℕ → List (LogEntry C) → List (LogEntry C)
  truncate i [] = []
  truncate i (e ∷ l) = if leb e.index i then e ∷ truncate i l else truncate i l

  -- `log.iter().filter(|entry| entry.index >= next_idx)`
  unfoldable pub entries_from : ℕ → List (LogEntry C) → List (LogEntry C)
  entries_from i [] = []
  entries_from i (e ∷ l) = if leb i e.index then e ∷ entries_from i l else entries_from i l

  -- The loop that pushes what is missing, and moves the match index along.
  unfoldable pub push_missing : List (LogEntry C) → List (LogEntry C) → ℕ → List (LogEntry C) × ℕ
  push_missing [] l m = (l, m)
  push_missing (e ∷ es) l m =
      push_missing es (if has_index e.index l then l else l ++ e ∷ [])
        (if has_index e.index l then m else e.index)

  -- `sort_by_key(|entry| entry.index)`, a stable sort.
  unfoldable pub insert_by_index : LogEntry C → List (LogEntry C) → List (LogEntry C)
  insert_by_index e [] = e ∷ []
  insert_by_index e (x ∷ l) = if leb e.index x.index then e ∷ x ∷ l else x ∷ insert_by_index e l

  unfoldable pub sort_by_index : List (LogEntry C) → List (LogEntry C)
  sort_by_index [] = []
  sort_by_index (e ∷ l) = insert_by_index e (sort_by_index l)

  -- The block under `if !entries.is_empty()`.
  unfoldable pub merge_entries : ℕ → List (LogEntry C) → List (LogEntry C) → List (LogEntry C) × ℕ
  merge_entries prev [] l = (l, prev)
  merge_entries prev (e ∷ es) l =
      let (l', m) = push_missing (e ∷ es) (truncate prev l) prev in (sort_by_index l', m)
