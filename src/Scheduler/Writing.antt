-- ===== src/Scheduler/Writing.antt =====
-- The loop of writes in src/output_scheduler.rs.
use lector.Prelude.{
  ℕ, ◌+◌, ◌-◌, min, Bool, true, false, not, ◌&&◌, Option, none, some, List, [], ◌∷◌, ◌++◌, Bytes,
  is_empty, length, take, ltb, ◌==◌, if◌then◌else◌,
}
use lector.Scheduler.State.{
  ScheduledTerminalEffect, TrackedRender, ActiveTransaction, remaining, completes,
}
use lector.Scheduler.Completion.{
  IoError, write_zero, other, WriteReply, wrote, interrupted, would_block, refused,
}

-- What the loop of writes reads but does not change
pub record LoopLimits : Type 0 where
  pub budget : ℕ
  pub started_only : Bool
  pub bypass_generation : Option ℕ

pub data Move : Type 0 where
  stop complete write : Move

pub data LoopEnd : Type 0 where
  -- whether the render of a bypass was reached
  stopped : Bool → LoopEnd
  loop_blocked : LoopEnd
  loop_failed : IoError → LoopEnd

module _ (S B : Type 0) where
  -- What the loop changes: the active transactions, what awaits the flush, and the writer's output
  pub record Loop : Type 0 where
    pub active : List (ActiveTransaction S B)
    pub awaiting_renders : List (TrackedRender S B)
    pub awaiting_effects : List ScheduledTerminalEffect
    pub bytes_written : ℕ
    pub flush_required : Bool
    pub output : Bytes

module _ {S B : Type 0} where
  unfoldable pub next_move : LoopLimits → ℕ → ActiveTransaction S B → Move
  next_move p bytes_written t =
      if not (ltb bytes_written p.budget)
      then stop
      else if p.started_only && t.offset == 0
      then stop
      else if is_empty (remaining t)
      then complete
      else write

  unfoldable pub await_render :
      Option (TrackedRender S B) → List (TrackedRender S B) → List (TrackedRender S B)
  await_render none renders = renders
  await_render (some r) renders = renders ++ r ∷ []

  -- The front is popped, and awaits the flush.
  unfoldable pub pop_front :
      ActiveTransaction S B → List (ActiveTransaction S B) → Loop S B → Loop S B
  unfolding await_render
  pop_front t ts l = record l {
    active = ts;
    awaiting_renders = await_render t.completed_render l.awaiting_renders;
    awaiting_effects = l.awaiting_effects ++ t.completed_effects;
  }

  -- What the writer takes of the bytes that it is offered
  abbrev pub accepted : LoopLimits → ℕ → ActiveTransaction S B → Loop S B → Bytes
  accepted p n t l =
      take n (take (min (length (remaining t)) (p.budget - l.bytes_written)) (remaining t))

  -- `transaction.offset`, whose sum is at most the length of the bytes
  abbrev pub advance : Bytes → ActiveTransaction S B → ActiveTransaction S B
  advance taken t = record t { offset = t.offset + length taken }

  -- `Ok(written)`, of the bytes that were offered
  abbrev pub wrote_bytes : Bytes → Loop S B → Loop S B
  wrote_bytes taken l = record l {
    bytes_written = l.bytes_written + length taken;
    flush_required = true;
    output = l.output ++ taken;
  }

  -- The loop runs on the answers and the active transactions: each round uses up one of either.
  unfoldable pub write_loop :
      LoopLimits
      → List WriteReply
      → List (ActiveTransaction S B)
      → Loop S B
      → LoopEnd × List WriteReply × Loop S B
  unfolding next_move pop_front
  write_loop p replies [] l = (stopped false, replies, record l { active = [] })
  write_loop p [] (t ∷ ts) l = elim (next_move p l.bytes_written t) [
    | stop ↦ (stopped false, [], record l { active = t ∷ ts })
    | write ↦ (loop_blocked, [], record l { active = t ∷ ts })
    | complete ↦ elim (completes p.bypass_generation t.completed_render) [
      | true ↦ (stopped true, [], pop_front t ts l)
      | false ↦ write_loop p [] ts (pop_front t ts l)
    ]
  ]
  write_loop p (reply ∷ replies) (t ∷ ts) l = elim (next_move p l.bytes_written t) [
    | stop ↦ (stopped false, reply ∷ replies, record l { active = t ∷ ts })
    | complete ↦ elim (completes p.bypass_generation t.completed_render) [
      | true ↦ (stopped true, reply ∷ replies, pop_front t ts l)
      | false ↦ write_loop p (reply ∷ replies) ts (pop_front t ts l)
    ]
    | write ↦ elim reply [
      | interrupted ↦ write_loop p replies (t ∷ ts) l
      | would_block ↦ (loop_blocked, replies, record l { active = t ∷ ts })
      | refused reason ↦ (loop_failed (other reason), replies, record l { active = t ∷ ts })
      | wrote n ↦ elim (n == 0) [
        | true ↦ (loop_failed write_zero, replies, record l { active = t ∷ ts })
        | false ↦
            write_loop p replies (advance (accepted p n t l) t ∷ ts)
              (wrote_bytes (accepted p n t l) l)
      ]
    ]
  ]

  -- Transactions whose last byte landed on the budget
  unfoldable pub pop_completed : Option ℕ → List (ActiveTransaction S B) → Loop S B → Loop S B
  unfolding pop_front
  pop_completed bypass [] l = record l { active = [] }
  pop_completed bypass (t ∷ ts) l = elim (is_empty (remaining t)) [
    | false ↦ record l { active = t ∷ ts }
    | true ↦ elim (completes bypass t.completed_render) [
      | true ↦ pop_front t ts l
      | false ↦ pop_completed bypass ts (pop_front t ts l)
    ]
  ]
