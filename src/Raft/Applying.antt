-- ===== src/Raft/Applying.antt =====
-- trading/src/consensus/raft.rs, `apply_committed_entries`: what the loop leaves alone, that it
-- ends by its test, and what it does to the state machine.
use mathlib.Core.Path.{subst}
use actix_pura.Prelude.{
  some, some_same, true, false, Bool-cases, Option-cases, inl, inr, ltb, ℕ, zero, suc, ◌+◌, ◌-◌,
  ◌≤◌, ◌<◌, ◌≡◌, refl, ap, ◌∙◌, List, arith, u64_mod, add64,
}
use actix_pura.Raft.Types.{LogEntry, RaftNode, StateMachine}
use actix_pura.Raft.Log.{entry_at}
use actix_pura.Raft.Leader.{run_entry, apply_next, apply_loop, apply_committed_entries}

-- What application does not touch.
pub record Untouched {C S : Type 0} (n k : RaftNode C S) : Type 0 where
  pub current_term : k.current_term ≡ n.current_term
  pub voted_for : k.voted_for ≡ n.voted_for
  pub log : k.log ≡ n.log
  pub state : k.state ≡ n.state
  pub match_index : k.match_index ≡ n.match_index
  pub cluster_nodes : k.cluster_nodes ≡ n.cluster_nodes

-- The state machine after the entries at `i + 1`, …, `i + k`, in that order.
unfoldable pub run_range : {C S : Type 0} → StateMachine C S → List (LogEntry C) → ℕ → ℕ → S → S
run_range m l zero i s = s
run_range m l (suc k) i s = run_range m l k (i + 1) (run_entry m (entry_at (i + 1) l) s)

module _ {C S : Type 0} (m : StateMachine C S) where
  loop-Untouched :
      (k : ℕ) (n r : RaftNode C S)
      → apply_loop m k n ≡ some r
      → Untouched n r × (r.commit_index ≡ n.commit_index)
  unfolding apply_loop apply_next
  loop-Untouched zero n r e = cc
  loop-Untouched (suc k) n r e = elim (Bool-cases (ltb n.last_applied n.commit_index)) [
    | inl more ↦
        let (u, c) = loop-Untouched k (apply_next m n) r (rw (more, apply_loop) at e) in
        (
          record {
            current_term = u.current_term;
            voted_for = u.voted_for;
            log = u.log;
            state = u.state;
            match_index = u.match_index;
            cluster_nodes = u.cluster_nodes;
          },
          c,
        )
    | inr over ↦
        let same : n ≡ r = some_same (rw (over, apply_loop) at e) in
        subst (λ x. Untouched n x × (x.commit_index ≡ n.commit_index)) same (ground arith, refl)
  ]

  apply_keeps :
      (n : RaftNode C S)
      → Untouched n (apply_committed_entries m n)
        × ((apply_committed_entries m n).commit_index ≡ n.commit_index)
  unfolding apply_committed_entries
  apply_keeps n = elim (Option-cases (apply_loop m (suc (n.commit_index - n.last_applied)) n)) [
    | inl out ↦ rw out (ground arith, refl)
    | inr (r, e) ↦ rw e (loop-Untouched (suc (n.commit_index - n.last_applied)) n r e)
  ]

  pub apply-Untouched : (n : RaftNode C S) → Untouched n (apply_committed_entries m n)
  apply-Untouched n = (apply_keeps n).0

  pub apply_commit :
      (n : RaftNode C S) → (apply_committed_entries m n).commit_index ≡ n.commit_index
  apply_commit n = (apply_keeps n).1

  -- The node when the indexes after `last_applied` up to `commit_index`, `d` of them, are applied.
  abbrev applied : ℕ → RaftNode C S → RaftNode C S
  applied d n = record n {
    last_applied = n.commit_index;
    state_machine = run_range m n.log d n.last_applied n.state_machine;
  }

  apply_loop_lem :
      (k d : ℕ) (n : RaftNode C S)
      → d < k
      → n.last_applied + d ≡ n.commit_index
      → n.commit_index < u64_mod
      → apply_loop m k n ≡ some (applied d n)
  unfolding apply_loop apply_next run_range
  apply_loop_lem zero d n h e b = absurd (omega arith)
  apply_loop_lem (suc k) zero n h e b =
      let reached : n.last_applied ≡ n.commit_index = omega arith in
      let over : ltb n.last_applied n.commit_index ≡ false = ground arith in
      rw (over, apply_loop) (ap (λ j. some (record n { last_applied = j })) reached)
  apply_loop_lem (suc k) (suc d) n h e b =
      let i : add64 n.last_applied 1 ≡ n.last_applied + 1 = omega arith in
      let more : ltb n.last_applied n.commit_index ≡ true = ground arith in
      rw (more, apply_loop)
        (apply_loop_lem k d (apply_next m n) (omega (arith, h)) (omega (arith, i, e)) b
          ∙ ap
              (λ j. some (record n {
                last_applied = n.commit_index;
                state_machine =
                    run_range m n.log d j (run_entry m (entry_at j n.log) n.state_machine);
              }))
              i)

  -- With a commit index below 2^64 that has been reached or is ahead, the loop ends by its test in
  -- any number of rounds that is more than the indexes to apply: `last_applied` is the commit index
  -- then, and the state machine has run the entries that the log has at the indexes after the old
  -- `last_applied` up to the commit index, in that order and each once. An index at which the log
  -- has no entry is passed over.
  pub apply_committed_entries_lem :
      (k : ℕ) (n : RaftNode C S)
      → n.last_applied ≤ n.commit_index
      → n.commit_index < u64_mod
      → n.commit_index - n.last_applied < k
      → (apply_loop m k n ≡ some (apply_committed_entries m n))
        × ((apply_committed_entries m n).last_applied ≡ n.commit_index)
        × ((apply_committed_entries m n).state_machine
            ≡ run_range m n.log (n.commit_index - n.last_applied) n.last_applied n.state_machine)
  unfolding apply_committed_entries
  apply_committed_entries_lem k n h b room =
      let d = n.commit_index - n.last_applied in
      let ends = apply_loop_lem (suc d) d n (omega arith) (omega arith) b in
      rw ends (apply_loop_lem k d n room (omega arith) b, refl, refl)

  pub apply_committed_machine :
      (n : RaftNode C S)
      → n.last_applied ≤ n.commit_index
      → n.commit_index < u64_mod
      → (apply_committed_entries m n).state_machine
        ≡ run_range m n.log (n.commit_index - n.last_applied) n.last_applied n.state_machine
  apply_committed_machine n h b =
      (apply_committed_entries_lem (suc (n.commit_index - n.last_applied)) n h b (omega arith)).2
