-- ===== src/Clipboard/System.antt =====
-- `SystemClipboard` of src/clipboard.rs. The clipboard of the platform (the crate arboard) is a
-- parameter; its state and the platform's are the `World`, which a call returns anew.
use lector.Prelude.{◌⊎◌, inl, inr, Option, none, some, List, [], ◌∷◌, ◌++◌, Bytes}
use lector.Clipboard.Names.{native, osc52, SystemClipboardProvider}
use lector.Clipboard.Base64.{osc52_prefix, osc52_suffix, osc52_write}
pub mod Queue

-- What the platform answers to a read.
pub data NativeText (Failure : Type 0) : Type 0 where
  found : Bytes → NativeText Failure
  content_not_available : NativeText Failure
  refused : Failure → NativeText Failure

pub record Platform : Type 1 where
  pub World : Type 0
  pub Handle : Type 0
  pub Failure : Type 0
  pub open_clipboard : World → (Failure ⊎ Handle) × World
  pub get_text : Handle → World → NativeText Failure × World
  pub set_text : Handle → Bytes → World → Option Failure × World
  pub clear_text : Handle → World → Option Failure × World

pub data ClipboardError (Failure : Type 0) : Type 0 where
  open_failed read_failed write_failed clear_failed : Failure → ClipboardError Failure
  write_only : ClipboardError Failure

abbrev pub Nothing : Type 0
Nothing = Unit

module _ (P : Platform) where
  pub record SystemClipboard : Type 0 where
    pub handle : Option P.Handle
    pub pending_terminal_writes : List Bytes

  -- What an operation returns, with the clipboard and the platform behind it.
  abbrev pub SystemOutcome : Type 0 → Type 0
  SystemOutcome A = (ClipboardError P.Failure ⊎ A) × SystemClipboard × P.World

  unfoldable pub native_handle : SystemClipboard → P.World → SystemOutcome P.Handle
  native_handle c w = elim c.handle [
    | some h ↦ (inr h, c, w)
    | none ↦
        let (opened, w') = P.open_clipboard w in
        elim opened [
          | inl f ↦ (inl (open_failed f), c, w')
          | inr h ↦ (inr h, record c { handle = some h }, w')
        ]
  ]

  abbrev pub text_of : NativeText P.Failure → ClipboardError P.Failure ⊎ Option Bytes
  text_of (found text) = inr (some text)
  text_of content_not_available = inr none
  text_of (refused f) = inl (read_failed f)

  abbrev pub result_of :
      (P.Failure → ClipboardError P.Failure) → Option P.Failure → ClipboardError P.Failure ⊎ Nothing
  result_of failed none = inr tt
  result_of failed (some f) = inl (failed f)

  -- An operation on the handle, which is opened first if need be.
  abbrev pub on_native :
      {A : Type 0}
      → SystemClipboard
      → P.World
      → (P.Handle → P.World → (ClipboardError P.Failure ⊎ A) × P.World)
      → SystemOutcome A
  on_native c w action =
      let (opened, c', w') = native_handle c w in
      elim opened [
        | inl e ↦ (inl e, c', w')
        | inr h ↦ let (result, w2) = action h w' in (result, c', w2)
      ]

  unfoldable pub read :
      SystemClipboard → P.World → SystemClipboardProvider → SystemOutcome (Option Bytes)
  unfolding native_handle
  read c w native = on_native c w λ h w'. let (text, w2) = P.get_text h w' in (text_of text, w2)
  read c w osc52 = (inl write_only, c, w)

  abbrev pub queue : SystemClipboard → Bytes → SystemClipboard
  queue c sequence = record c {
    pending_terminal_writes = c.pending_terminal_writes ++ sequence ∷ [];
  }

  -- `none` is a panic in `osc52_write`.
  unfoldable pub write :
      SystemClipboard → P.World → SystemClipboardProvider → Bytes → Option (SystemOutcome Nothing)
  unfolding native_handle
  write c w native text = some (
      on_native c w
        λ h w'. let (result, w2) = P.set_text h text w' in (result_of write_failed result, w2))
  write c w osc52 text = elim (osc52_write text) [
    | none ↦ none
    | some sequence ↦ some (inr tt, queue c sequence, w)
  ]

  unfoldable pub clear_system :
      SystemClipboard → P.World → SystemClipboardProvider → SystemOutcome Nothing
  unfolding native_handle
  clear_system c w native =
      on_native c w
        λ h w'. let (result, w2) = P.clear_text h w' in (result_of clear_failed result, w2)
  clear_system c w osc52 = (inr tt, queue c (osc52_prefix ++ osc52_suffix), w)

  unfoldable pub take_terminal_writes : SystemClipboard → List Bytes × SystemClipboard
  take_terminal_writes c = (c.pending_terminal_writes, record c { pending_terminal_writes = [] })
