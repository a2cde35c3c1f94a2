-- ===== src/Scheduler/Completion.antt =====
-- Flushes, completed renders and failures in src/output_scheduler.rs. The writer is the list of the answers that it will give, of
-- writes and of flushes, and the bytes that it has taken; one without an answer left would block. As
-- `Write::write` promises, it takes no more bytes than it is given.
use lector.Prelude.{
  ℕ, Bool, true, false, ◌||◌, Option, none, some, List, [], ◌∷◌, ◌++◌, Bytes, if◌then◌else◌,
}
use lector.Scheduler.State.{ScheduledTerminalEffect, TrackedRender, OutputScheduler, is_generation}

pub data IoError : Type 0 where
  write_zero : IoError
  -- any other kind, but `Interrupted` and `WouldBlock`
  other : ℕ → IoError

pub data WriteReply : Type 0 where
  wrote : ℕ → WriteReply
  interrupted would_block : WriteReply
  refused : ℕ → WriteReply

pub data FlushReply : Type 0 where
  flushed flush_interrupted flush_would_block : FlushReply
  flush_refused : ℕ → FlushReply

pub record Writer : Type 0 where
  pub writes : List WriteReply
  pub flushes : List FlushReply
  pub output : Bytes

module _ (S B : Type 0) where
  -- A `CompletedRender`, whose geometry is the one of its scene, is the tracked render.
  pub record DrainReport : Type 0 where
    pub bytes_written : ℕ
    pub completed_renders : List (TrackedRender S B)
    pub completed_effects : List ScheduledTerminalEffect
    pub blocked : Bool
    pub write_budget_exhausted : Bool
    pub synchronization_timed_out : Bool
    pub bypass_completed : Option ℕ

  -- `io::Result<DrainReport>`
  pub data Drained : Type 0 where
    reported : DrainReport → Drained
    failed : IoError → Drained

module _ {S B : Type 0} where
  abbrev pub empty_report : DrainReport S B
  empty_report = record {
    bytes_written = 0;
    completed_renders = [];
    completed_effects = [];
    blocked = false;
    write_budget_exhausted = false;
    synchronization_timed_out = false;
    bypass_completed = none;
  }

  unfoldable pub complete_render :
      OutputScheduler S B
      → DrainReport S B
      → TrackedRender S B
      → OutputScheduler S B × DrainReport S B
  complete_render s r tracked =
      let releases = is_generation s.release_generation tracked.generation in
      let bypasses = is_generation s.bypass_generation tracked.generation in
      (
        record s {
          release_generation = if releases then none else s.release_generation;
          bypass_generation = if bypasses then none else s.bypass_generation;
        },
        record r {
          completed_renders = r.completed_renders ++ tracked ∷ [];
          synchronization_timed_out = releases || r.synchronization_timed_out;
          bypass_completed = if bypasses then some tracked.generation else r.bypass_completed;
        },
      )

  unfoldable pub complete_renders :
      OutputScheduler S B
      → DrainReport S B
      → List (TrackedRender S B)
      → OutputScheduler S B × DrainReport S B
  unfolding complete_render
  complete_renders s r [] = (s, r)
  complete_renders s r (tracked ∷ renders) =
      let (s', r') = complete_render s r tracked in complete_renders s' r' renders

  unfoldable pub complete_awaiting_renders :
      OutputScheduler S B → DrainReport S B → OutputScheduler S B × DrainReport S B
  unfolding complete_renders
  complete_awaiting_renders s r =
      let (s', r') = complete_renders s r s.awaiting_flush_renders in
      (
        record s' { awaiting_flush_renders = []; awaiting_flush_effects = [] },
        record r' { completed_effects = r'.completed_effects ++ s.awaiting_flush_effects },
      )

  -- The state behind `fail`
  unfoldable pub fail : OutputScheduler S B → OutputScheduler S B
  fail s = record s {
    active = [];
    awaiting_flush_renders = [];
    awaiting_flush_effects = [];
    flush_required = false;
    waiting_for_writable = false;
    queued_bytes = [];
    pending_render = none;
    pending_effects = [];
    pending_bells = 0;
    pending_since_ms = none;
    application_synchronization = none;
    bypass_next_render = false;
    bypass_generation = none;
    release_generation = none;
    needs_reconciliation = true;
  }

-- The loop of `flush_writer`: what it ends with, and the answers that are left.
pub data FlushEnd : Type 0 where
  flush_done flush_blocked : FlushEnd
  flush_failed : ℕ → FlushEnd

unfoldable pub flush_loop : List FlushReply → FlushEnd × List FlushReply
flush_loop [] = (flush_blocked, [])
flush_loop (flushed ∷ replies) = (flush_done, replies)
flush_loop (flush_interrupted ∷ replies) = flush_loop replies
flush_loop (flush_would_block ∷ replies) = (flush_blocked, replies)
flush_loop (flush_refused reason ∷ replies) = (flush_failed reason, replies)

module _ (S B : Type 0) where
  -- The rest of `drain_ready` runs, it returns a report, or it fails.
  pub data Progress : Type 0 where
    goes_on returns : OutputScheduler S B → DrainReport S B → Writer → Progress
    fails : OutputScheduler S B → IoError → Writer → Progress

module _ {S B : Type 0} where
  unfoldable pub flush_end :
      OutputScheduler S B → DrainReport S B → Writer → FlushEnd → Progress S B
  unfolding complete_awaiting_renders fail
  flush_end s r w flush_done =
      let (s', r') = complete_awaiting_renders (record s { flush_required = false }) r in
      goes_on s' r' w
  flush_end s r w flush_blocked =
      returns (record s { waiting_for_writable = true }) (record r { blocked = true }) w
  flush_end s r w (flush_failed reason) = fails (fail s) (other reason) w

  unfoldable pub flush_writer : OutputScheduler S B → DrainReport S B → Writer → Progress S B
  unfolding flush_loop flush_end
  flush_writer s r w =
      let (ending, flushes) = flush_loop w.flushes in
      flush_end s r (record w { flushes = flushes }) ending

  -- `if self.flush_required && !self.flush_writer(..)? { return Ok(report); }`
  unfoldable pub flush_if_required : OutputScheduler S B → DrainReport S B → Writer → Progress S B
  unfolding flush_writer
  flush_if_required s r w = if s.flush_required then flush_writer s r w else goes_on s r w
