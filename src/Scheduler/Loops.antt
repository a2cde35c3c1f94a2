-- ===== src/Scheduler/Loops.antt =====
-- The loops of `drain_ready` in src/output_scheduler.rs, for any relation that a round keeps.
use lector.Prelude.{
  ℕ, ◌≡◌, refl, Bool, true, false, Option, List, [], ◌∷◌, ◌++◌, Bytes, is_empty, ◌==◌,
}
use lector.Scheduler.State.{TrackedRender, ActiveTransaction, remaining, completes}
use lector.Scheduler.Completion.{
  other, write_zero, WriteReply, wrote, interrupted, would_block, refused,
}
use lector.Scheduler.Writing.{
  LoopLimits, Move, stop, complete, write, LoopEnd, stopped, loop_blocked, loop_failed, Loop,
  next_move, await_render, pop_front, accepted, advance, wrote_bytes, write_loop, pop_completed,
}
use lector.Scheduler.Order.{complete-is_empty, accepted-remaining}

pub Bool-elim :
    {X : Type 0} (P : X → Type 0) (b : Bool) (x y : X)
    → (b ≡ true → P x)
    → (b ≡ false → P y)
    → P (elim b [ true ↦ x | false ↦ y ])
Bool-elim P true x y f g = f refl
Bool-elim P false x y f g = g refl

Move-cases :
    {X : Type 0} (P : X → Type 0) (m : Move) (a b c : X)
    → (m ≡ stop → P a)
    → (m ≡ complete → P b)
    → (m ≡ write → P c)
    → P (elim m [ stop ↦ a | complete ↦ b | write ↦ c ])
Move-cases P stop a b c f g h = f refl
Move-cases P complete a b c f g h = g refl
Move-cases P write a b c f g h = h refl

-- What a round keeps, of the active transactions, the renders that await the flush and the output, the loops keep.
module _ {S B : Type 0}
    (Q : List (ActiveTransaction S B) → List (TrackedRender S B) → Bytes → Type 0)
    (popped : (t : ActiveTransaction S B) (ts : List (ActiveTransaction S B))
        (renders : List (TrackedRender S B)) (output : Bytes)
      → is_empty (remaining t) ≡ true
      → Q (t ∷ ts) renders output
      → Q ts (await_render t.completed_render renders) output)
    (written : (t : ActiveTransaction S B) (ts : List (ActiveTransaction S B))
        (renders : List (TrackedRender S B)) (output taken : Bytes)
      → taken ++ remaining (advance taken t) ≡ remaining t
      → Q (t ∷ ts) renders output
      → Q (advance taken t ∷ ts) renders (output ++ taken)) where
  abbrev Holds : LoopEnd × List WriteReply × Loop S B → Type 0
  Holds r = Q r.2.active r.2.awaiting_renders r.2.output

  -- The round of an answer, given the rounds behind it
  reply-Holds :
      (p : LoopLimits) (replies : List WriteReply) (t : ActiveTransaction S B)
      (ts : List (ActiveTransaction S B)) (l : Loop S B)
      → Q (t ∷ ts) l.awaiting_renders l.output
      → Holds (write_loop p replies (t ∷ ts) l)
      → ((n : ℕ)
          → Holds (
              write_loop p replies
                (advance (accepted p n t l) t ∷ ts)
                (wrote_bytes (accepted p n t l) l)))
      → (reply : WriteReply)
      → Holds (elim reply [
        | interrupted ↦ write_loop p replies (t ∷ ts) l
        | would_block ↦ (loop_blocked, replies, record l { active = t ∷ ts })
        | refused reason ↦ (loop_failed (other reason), replies, record l { active = t ∷ ts })
        | wrote n ↦ elim (n == 0) [
          | true ↦ (loop_failed write_zero, replies, record l { active = t ∷ ts })
          | false ↦
              write_loop p replies
                (advance (accepted p n t l) t ∷ ts)
                (wrote_bytes (accepted p n t l) l)
        ]
      ])
  reply-Holds p replies t ts l q again further interrupted = again
  reply-Holds p replies t ts l q again further would_block = q
  reply-Holds p replies t ts l q again further (refused reason) = q
  reply-Holds p replies t ts l q again further (wrote n) =
      Bool-elim Holds (n == 0) (loop_failed write_zero, replies, record l { active = t ∷ ts })
        (write_loop p replies (advance (accepted p n t l) t ∷ ts)
          (wrote_bytes (accepted p n t l) l))
        (λ _. q) (λ _. further n)

  pub write_loop-Holds :
      (p : LoopLimits) (replies : List WriteReply) (ts : List (ActiveTransaction S B))
      (l : Loop S B)
      → Q ts l.awaiting_renders l.output
      → Holds (write_loop p replies ts l)
  unfolding write_loop pop_front
  write_loop-Holds p replies [] l q = q
  write_loop-Holds p [] (t ∷ ts) l q =
      Move-cases Holds (next_move p l.bytes_written t)
        (stopped false, [], record l { active = t ∷ ts })
        (elim (completes p.bypass_generation t.completed_render) [
          | true ↦ (stopped true, [], pop_front t ts l)
          | false ↦ write_loop p [] ts (pop_front t ts l)
        ])
        (loop_blocked, [], record l { active = t ∷ ts }) (λ _. q)
        (λ e.
          let behind =
            popped t ts l.awaiting_renders l.output (complete-is_empty p l.bytes_written t e) q in
          Bool-elim Holds (completes p.bypass_generation t.completed_render)
            (stopped true, [], pop_front t ts l) (write_loop p [] ts (pop_front t ts l))
            (λ _. behind) (λ _. write_loop-Holds p [] ts (pop_front t ts l) behind))
        (λ _. q)
  write_loop-Holds p (reply ∷ replies) (t ∷ ts) l q =
      Move-cases Holds (next_move p l.bytes_written t)
        (stopped false, reply ∷ replies, record l { active = t ∷ ts })
        (elim (completes p.bypass_generation t.completed_render) [
          | true ↦ (stopped true, reply ∷ replies, pop_front t ts l)
          | false ↦ write_loop p (reply ∷ replies) ts (pop_front t ts l)
        ])
        (elim reply [
          | interrupted ↦ write_loop p replies (t ∷ ts) l
          | would_block ↦ (loop_blocked, replies, record l { active = t ∷ ts })
          | refused reason ↦ (loop_failed (other reason), replies, record l { active = t ∷ ts })
          | wrote n ↦ elim (n == 0) [
            | true ↦ (loop_failed write_zero, replies, record l { active = t ∷ ts })
            | false ↦
                write_loop p replies (advance (accepted p n t l) t ∷ ts)
                  (wrote_bytes (accepted p n t l) l)
          ]
        ])
        (λ _. q)
        (λ e.
          let behind =
            popped t ts l.awaiting_renders l.output (complete-is_empty p l.bytes_written t e) q in
          Bool-elim Holds (completes p.bypass_generation t.completed_render)
            (stopped true, reply ∷ replies, pop_front t ts l)
            (write_loop p (reply ∷ replies) ts (pop_front t ts l)) (λ _. behind)
            (λ _. write_loop-Holds p (reply ∷ replies) ts (pop_front t ts l) behind))
        (λ _.
          reply-Holds p replies t ts l q (write_loop-Holds p replies (t ∷ ts) l q)
            (λ n.
              write_loop-Holds p replies (advance (accepted p n t l) t ∷ ts)
                (wrote_bytes (accepted p n t l) l)
                (written t ts l.awaiting_renders l.output (accepted p n t l)
                  (accepted-remaining p n t l) q))
            reply)

  pub pop_completed-Holds :
      (bypass : Option ℕ) (ts : List (ActiveTransaction S B)) (l : Loop S B)
      → Q ts l.awaiting_renders l.output
      → Q (pop_completed bypass ts l).active (pop_completed bypass ts l).awaiting_renders l.output
  unfolding pop_completed pop_front
  pop_completed-Holds bypass [] l q = q
  pop_completed-Holds bypass (t ∷ ts) l q =
      Bool-elim Still (is_empty (remaining t))
        (elim (completes bypass t.completed_render) [
          | true ↦ pop_front t ts l
          | false ↦ pop_completed bypass ts (pop_front t ts l)
        ])
        (record l { active = t ∷ ts })
        (λ h.
          let behind = popped t ts l.awaiting_renders l.output h q in
          Bool-elim Still (completes bypass t.completed_render) (pop_front t ts l)
            (pop_completed bypass ts (pop_front t ts l)) (λ _. behind)
            (λ _. pop_completed-Holds bypass ts (pop_front t ts l) behind))
        (λ _. q)
    where
      Still : Loop S B → Type 0
      Still l' = Q l'.active l'.awaiting_renders l.output
