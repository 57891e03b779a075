-- ===== src/Runtime/Context.antt =====
-- actix/src/context_impl.rs: `ContextParts`, the state that an actor reaches through its context.
-- `F` is the type of the futures that are spawned. The flags are a record of their bits, and
-- `handles` is three fields: the first two entries, and the rest, which is pushed and popped at
-- its end and stands here newest first.
use actix_pura.Prelude.{
  ℕ, Bool, true, false, List, [], ◌∷◌, ◌++◌, is_empty, not, ◌||◌, if◌then◌else◌, add64,
}

-- `ContextFlags`
pub record ContextFlags : Type 0 where
  pub started : Bool
  pub running : Bool
  pub stopping : Bool
  pub stopped : Bool
  pub mb_cap_changed : Bool

-- `ContextFlags::RUNNING`, `ContextFlags::STOPPED`, and `STOPPED | STARTED`.
abbrev pub running_flags : ContextFlags
running_flags = record {
  started = false;
  running = true;
  stopping = false;
  stopped = false;
  mb_cap_changed = false;
}

abbrev pub stopped_flags : ContextFlags
stopped_flags = record {
  started = false;
  running = false;
  stopping = false;
  stopped = true;
  mb_cap_changed = false;
}

abbrev pub ended_flags : ContextFlags
ended_flags = record stopped_flags { started = true }

-- `ActorState` of actix/src/actor.rs, with `alive`.
pub data ActorState : Type 0 where
  started running stopping stopped : ActorState

abbrev pub is_alive : ActorState → Bool
is_alive ActorState.started = true
is_alive ActorState.running = true
is_alive ActorState.stopping = false
is_alive ActorState.stopped = false

pub record ContextParts (F : Type 0) : Type 0 where
  pub flags : ContextFlags
  pub wait : List F
  pub items : List (ℕ × F)
  pub last_handle : ℕ
  pub current_handle : ℕ
  pub cancelled : List ℕ

module _ {F : Type 0} where
  -- `ContextParts::new`
  abbrev pub new_parts : ContextParts F
  new_parts = record {
    flags = running_flags;
    wait = [];
    items = [];
    last_handle = 0;
    current_handle = 0;
    cancelled = [];
  }

  -- `ContextParts::stop` and `ContextParts::terminate`
  unfoldable pub stop_parts : ContextParts F → ContextParts F
  stop_parts c =
      if c.flags.running
      then record c { flags = record c.flags { running = false; stopping = true } }
      else c

  abbrev pub terminate_parts : ContextParts F → ContextParts F
  terminate_parts c = record c { flags = stopped_flags }

  unfoldable pub state : ContextParts F → ActorState
  state c =
      if c.flags.running
      then ActorState.running
      else if c.flags.stopped
      then ActorState.stopped
      else if c.flags.stopping
      then ActorState.stopping
      else ActorState.started

  -- `flags.intersects(STOPPING | STOPPED)`
  abbrev pub is_stopping : ContextParts F → Bool
  is_stopping c = c.flags.stopping || c.flags.stopped

  unfoldable pub waiting : ContextParts F → Bool
  waiting c = not (is_empty c.wait) || is_stopping c

  -- `spawn`, which returns the new `last_handle`.
  abbrev pub spawn_item : F → ContextParts F → ContextParts F
  spawn_item f c =
      let h = add64 c.last_handle 1 in record c { last_handle = h; items = c.items ++ (h, f) ∷ [] }

  abbrev pub wait_for : F → ContextParts F → ContextParts F
  wait_for f c = record c { wait = c.wait ++ f ∷ [] }

  abbrev pub cancel_handle : ℕ → ContextParts F → ContextParts F
  cancel_handle h c = record c { cancelled = h ∷ c.cancelled }

  -- The flag of `set_mailbox_capacity`.
  abbrev pub capacity_changed : ContextParts F → ContextParts F
  capacity_changed c = record c { flags = record c.flags { mb_cap_changed = true } }

  -- `ContextParts::restart`, which leaves the cancelled handles.
  unfoldable pub restart_parts : ContextParts F → ContextParts F
  restart_parts c = record c { flags = running_flags; wait = []; items = []; last_handle = 0 }
