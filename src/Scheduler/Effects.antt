-- ===== src/Scheduler/Effects.antt =====
-- The terminal events of src/terminal.rs, and what src/output_scheduler.rs keeps and writes of them.
use lector.Prelude.{
  ℕ, zero, suc, ◌+◌, ◌-◌, Bool, not, ◌&&◌, ◌||◌, Option, none, some, List, [], ◌∷◌, ◌++◌, Bytes,
  bytes, min, usize_max, is_empty, length, take, drop, ltb, leb, ◌==◌, if◌then◌else◌,
}
use lector.Topology.Text.{decimal}

-- `usize::saturating_add`; `saturating_sub` is the subtraction of ℕ.
abbrev pub sat_add : ℕ → ℕ → ℕ
sat_add a b = min (a + b) usize_max

pub data ClipboardLocation : Type 0 where
  standard selection primary : ClipboardLocation

pub record ClipboardContent : Type 0 where
  pub mime : Bytes
  pub data_bytes : Bytes

pub data ProgressState : Type 0 where
  remove set error indeterminate pause : ProgressState

pub data TerminalQuery : Type 0 where
  enquiry xt_version size color_scheme device_attributes clipboard : TerminalQuery

pub data TerminalEvent : Type 0 where
  bell : TerminalEvent
  title_changed working_directory_changed : Bytes → TerminalEvent
  clipboard_write : ClipboardLocation → List ClipboardContent → TerminalEvent
  -- title, body
  desktop_notification : Bytes → Bytes → TerminalEvent
  progress_report : ProgressState → Option ℕ → TerminalEvent
  query : TerminalQuery → TerminalEvent
  pty_reply : Bytes → TerminalEvent
  -- content, truncated
  unknown_sequence : Bytes → Bool → TerminalEvent

pub data TerminalEventKind : Type 0 where
  bell_kind title_kind working_directory_kind clipboard_kind notification_kind : TerminalEventKind
  progress_kind query_kind reply_kind unknown_kind : TerminalEventKind

unfoldable pub terminal_event_kind : TerminalEvent → TerminalEventKind
terminal_event_kind bell = bell_kind
terminal_event_kind (title_changed _) = title_kind
terminal_event_kind (working_directory_changed _) = working_directory_kind
terminal_event_kind (clipboard_write _ _) = clipboard_kind
terminal_event_kind (desktop_notification _ _) = notification_kind
terminal_event_kind (progress_report _ _) = progress_kind
terminal_event_kind (query _) = query_kind
terminal_event_kind (pty_reply _) = reply_kind
terminal_event_kind (unknown_sequence _ _) = unknown_kind

kind_index : TerminalEventKind → ℕ
kind_index bell_kind = 0
kind_index title_kind = 1
kind_index working_directory_kind = 2
kind_index clipboard_kind = 3
kind_index notification_kind = 4
kind_index progress_kind = 5
kind_index query_kind = 6
kind_index reply_kind = 7
kind_index unknown_kind = 8

-- `TerminalEventKind: PartialEq`
unfoldable pub kind_eq : TerminalEventKind → TerminalEventKind → Bool
unfolding kind_index
kind_eq a b = kind_index a == kind_index b

contents_bytes : List ClipboardContent → ℕ
contents_bytes [] = 0
contents_bytes (c ∷ cs) = sat_add (length c.mime) (length c.data_bytes) + contents_bytes cs

unfoldable pub payload_bytes : TerminalEvent → ℕ
unfolding contents_bytes
payload_bytes (title_changed value) = length value
payload_bytes (working_directory_changed value) = length value
payload_bytes (clipboard_write _ contents) = contents_bytes contents
payload_bytes (desktop_notification title body) = sat_add (length title) (length body)
payload_bytes (pty_reply reply) = length reply
payload_bytes (unknown_sequence content _) = length content
payload_bytes bell = 0
payload_bytes (progress_report _ _) = 0
payload_bytes (query _) = 0

unfoldable pub terminal_event_retained_bytes : TerminalEvent → ℕ
unfolding payload_bytes
terminal_event_retained_bytes event = sat_add (payload_bytes event) 16

-- `str::is_char_boundary`: the end of the text, or a byte that is no continuation byte
is_char_boundary : Bytes → ℕ → Bool
is_char_boundary value index = at (drop index value)
  where
    at : Bytes → Bool
    at [] = index == length value
    at (b ∷ bs) = ltb b 0x80 || leb 0xc0 b

-- `(0..=maximum).rev().find(..)`, or 0
last_boundary : Bytes → ℕ → ℕ
unfolding is_char_boundary
last_boundary value zero = zero
last_boundary value (suc n) =
    let rest = last_boundary value n in if is_char_boundary value (suc n) then suc n else rest

unfoldable pub truncate_string : Bytes → ℕ → Bytes
unfolding last_boundary
truncate_string value maximum =
    if leb (length value) maximum then value else take (last_boundary value maximum) value

-- The loop over the contents, with the bytes that remain
bound_contents : ℕ → List ClipboardContent → List ClipboardContent
unfolding truncate_string
bound_contents remaining [] = []
bound_contents remaining (c ∷ cs) =
    let mime = truncate_string c.mime remaining in
    let content = take (remaining - length mime) c.data_bytes in
    let rest = bound_contents (remaining - length mime - length content) cs in
    if not (is_empty mime) || not (is_empty content)
    then record { mime = mime; data_bytes = content } ∷ rest
    else rest

unfoldable pub bound_terminal_effect : TerminalEvent → ℕ → TerminalEvent
unfolding truncate_string bound_contents
bound_terminal_effect (title_changed value) maximum =
    title_changed (truncate_string value (maximum - 16))
bound_terminal_effect (working_directory_changed value) maximum =
    working_directory_changed (truncate_string value (maximum - 16))
bound_terminal_effect (clipboard_write location contents) maximum =
    clipboard_write location (bound_contents (maximum - 16) contents)
bound_terminal_effect (desktop_notification title body) maximum =
    let bound = truncate_string title (maximum - 16) in
    desktop_notification bound (truncate_string body (maximum - 16 - length bound))
bound_terminal_effect (pty_reply reply) maximum = pty_reply (take (maximum - 16) reply)
bound_terminal_effect (unknown_sequence content truncated) maximum =
    unknown_sequence (take (maximum - 16) content) truncated
bound_terminal_effect bell maximum = bell
bound_terminal_effect (progress_report state progress) maximum = progress_report state progress
bound_terminal_effect (query q) maximum = query q

-- `value.bytes().filter(|byte| *byte >= b' ' && *byte != 0x7f)`
unfoldable pub printable : Bytes → Bytes
printable [] = []
printable (b ∷ bs) =
    let rest = printable bs in if leb b' ' b && not (b == 0x7f) then b ∷ rest else rest

unfoldable pub write_osc : ℕ → Bytes → Bytes
unfolding printable decimal
write_osc code value = 0x1b ∷ b']' ∷ (decimal code ++ b';' ∷ (printable value ++ 0x1b ∷ b'\\' ∷ []))

unfoldable pub progress_code : ProgressState → ℕ
progress_code remove = 0
progress_code set = 1
progress_code error = 2
progress_code indeterminate = 3
progress_code pause = 4

unfoldable pub progress_suffix : Option ℕ → Bytes
unfolding decimal
progress_suffix none = []
progress_suffix (some progress) = b';' ∷ decimal (min progress 100)

unfoldable pub encode_terminal_effect : TerminalEvent → Bytes
unfolding write_osc progress_code progress_suffix decimal
encode_terminal_effect (title_changed title) = write_osc 2 title
encode_terminal_effect (working_directory_changed directory) = write_osc 7 directory
encode_terminal_effect (progress_report state progress) =
    0x1b ∷ bytes "]9;4;"
    ++ (decimal (progress_code state) ++ (progress_suffix progress ++ 0x1b ∷ b'\\' ∷ []))
encode_terminal_effect bell = 7 ∷ []
encode_terminal_effect (clipboard_write _ _) = []
encode_terminal_effect (desktop_notification _ _) = []
encode_terminal_effect (query _) = []
encode_terminal_effect (pty_reply _) = []
encode_terminal_effect (unknown_sequence _ _) = []
