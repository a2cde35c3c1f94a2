-- ===== src/Scheduler/Markers.antt =====
-- The markers of synchronized output in src/output_scheduler.rs, and how they are taken out.
use lector.Prelude.{
  ℕ, zero, suc, Bool, false, ◌||◌, [], ◌∷◌, ◌++◌, Bytes, bytes, starts_with, if◌then◌else◌,
}

abbrev pub synchronized_output_start : Bytes
synchronized_output_start = 0x1b ∷ bytes "[?2026h"

abbrev pub synchronized_output_end : Bytes
synchronized_output_end = 0x1b ∷ bytes "[?2026l"

-- A marker stands at the beginning.
unfoldable pub at_marker : Bytes → Bool
unfolding starts_with
at_marker bs = starts_with synchronized_output_start bs || starts_with synchronized_output_end bs

unfoldable pub contains_synchronization_marker : Bytes → Bool
unfolding at_marker
contains_synchronization_marker [] = false
contains_synchronization_marker (b ∷ bs) = at_marker (b ∷ bs) || contains_synchronization_marker bs

-- What is kept of the source, when the first `skip` bytes belong to a marker. Both markers have eight
-- bytes and begin with an escape, so a byte that is none is kept as it stands.
unfoldable pub keep_from : ℕ → Bytes → Bytes
unfolding at_marker
keep_from skip [] = []
keep_from (suc skip) (b ∷ bs) = keep_from skip bs
keep_from zero (b ∷ bs) =
    let kept = b ∷ keep_from zero bs in
    let skipped = keep_from 7 bs in if at_marker (b ∷ bs) then skipped else kept

unfoldable pub append_without_synchronization_markers : Bytes → Bytes → Bytes
unfolding keep_from
append_without_synchronization_markers target source = target ++ keep_from zero source
