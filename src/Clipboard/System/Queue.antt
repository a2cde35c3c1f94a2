-- ===== src/Clipboard/System/Queue.antt =====
-- The writes for the terminal that `SystemClipboard` of src/clipboard.rs holds.
use lector.Prelude.{
  ◌≡◌, refl, sym, ap, ◌∙◌, inl, inr, Option, none, some, List, [], ◌∷◌, ◌++◌, append-nil,
  append_assoc, Bytes, All,
}
use lector.Clipboard.Base64.{osc52_prefix, osc52_suffix}
use lector.Clipboard.Base64.RoundTrip.{IsByte, IsEncoding, osc52_write-IsEncoding}
use lector.Clipboard.Names.{osc52}
use lector.Clipboard.System.{
  Platform, SystemClipboard, SystemOutcome, Nothing, queue, write, clear_system,
  take_terminal_writes,
}

-- A call with the provider `osc52`.
pub data TerminalCall : Type 0 where
  writing : Bytes → TerminalCall
  clearing : TerminalCall

abbrev pub IsText : TerminalCall → Type 0
IsText (writing text) = All IsByte text
IsText clearing = Unit

-- The sequence for the call: the text in Base64, or no text.
abbrev pub IsSequence : TerminalCall → Bytes → Type 0
IsSequence (writing text) sequence =
    (e : Bytes) × (sequence ≡ osc52_prefix ++ e ++ osc52_suffix) × IsEncoding text e
IsSequence clearing sequence = sequence ≡ osc52_prefix ++ osc52_suffix

abbrev pub AreSequences : List TerminalCall → List Bytes → Type 0
AreSequences [] [] = Unit
AreSequences (call ∷ calls) (sequence ∷ sequences) =
    IsSequence call sequence × AreSequences calls sequences
AreSequences _ _ = ⊥

module _ (P : Platform) where
  abbrev pub call_terminal :
      SystemClipboard P → P.World → TerminalCall → Option (SystemOutcome P Nothing)
  call_terminal c w (writing text) = write P c w osc52 text
  call_terminal c w clearing = some (clear_system P c w osc52)

  -- The calls one after the other; an error ends them, as a panic does.
  unfoldable pub call_all :
      SystemClipboard P → P.World → List TerminalCall → Option (SystemClipboard P × P.World)
  call_all c w [] = some (c, w)
  call_all c w (call ∷ calls) = elim (call_terminal c w call) [
    | none ↦ none
    | some (inl e, c', w') ↦ none
    | some (inr tt, c', w') ↦ call_all c' w' calls
  ]

  call_terminal-IsSequence :
      (c : SystemClipboard P) (w : P.World) (call : TerminalCall)
      → IsText call
      → (sequence : Bytes) × (call_terminal c w call ≡ some (inr tt, queue P c sequence, w))
        × IsSequence call sequence
  unfolding write clear_system
  call_terminal-IsSequence c w (writing text) h =
      let (e, at, k) = osc52_write-IsEncoding text h in
      (osc52_prefix ++ e ++ osc52_suffix, rw (at, write) refl, (e, refl, k))
  call_terminal-IsSequence c w clearing h = (osc52_prefix ++ osc52_suffix, refl, refl)

  -- Calls with the provider `osc52` succeed, do not touch the platform and its handle, and queue one
  -- sequence each: the text in Base64, or the empty sequence of a clear. `take_terminal_writes` gives
  -- all that is queued, in the order of the calls, and leaves nothing.
  pub take_terminal_writes-call_all :
      (c : SystemClipboard P) (w : P.World) (calls : List TerminalCall)
      → All IsText calls
      → (sequences : List Bytes) × (c' : SystemClipboard P) × (call_all c w calls ≡ some (c', w))
        × AreSequences calls sequences
        × (take_terminal_writes P c'
            ≡ (c.pending_terminal_writes ++ sequences, record c { pending_terminal_writes = [] }))
  unfolding call_all take_terminal_writes
  take_terminal_writes-call_all c w [] h = (
    [],
    c,
    refl,
    tt,
    ap (λ xs. (xs, record c { pending_terminal_writes = [] }))
        (sym (append-nil c.pending_terminal_writes)),
  )
  take_terminal_writes-call_all c w (call ∷ calls) h =
      let (sequence, at, k) = call_terminal-IsSequence c w call h.0 in
      let (sequences, c', done, ks, taken) =
        take_terminal_writes-call_all (queue P c sequence) w calls h.1 in
      (
        sequence ∷ sequences,
        c',
        rw (at, call_all) done,
        (k, ks),
        taken
            ∙ ap (λ xs. (xs, record c { pending_terminal_writes = [] }))
                (append_assoc c.pending_terminal_writes (sequence ∷ []) sequences),
      )
