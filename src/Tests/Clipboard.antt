-- ===== src/Tests/Clipboard.antt =====
-- Runs of the model of src/clipboard.rs, with a platform whose clipboard is one text.
use lector.Prelude.{
  ◌+◌, ◌-◌, ◌≡◌, ◌↔◌, refl, inr, none, some, List, [], ◌∷◌, ◌++◌, reverse, Bytes, bytes, arith,
  take,
}
use lector.Clipboard.Ring.{
  Clipboard, empty, put, get, prev, next, entries, select_index, internal_clipboard_capacity,
}
use lector.Clipboard.Ring.Order.{put_all, entries-put_all}
use lector.Clipboard.Ring.Selection.{
  IsValid, position, prev-next, putting, selecting, selecting_prev, apply_all, apply_all-IsValid,
  Selects, select_index-Selects,
}
use lector.Clipboard.Base64.{
  encode_base64, encode_chunk, symbol, osc52_prefix, osc52_suffix, osc52_write,
}
use lector.Clipboard.Base64.RoundTrip.{IsEncoding, osc52_write-IsEncoding}
use lector.Clipboard.Names.{
  native, internal, parse_register, register_name, parse_register-iff-name,
}
use lector.Clipboard.System.{Platform, found, SystemClipboard, read, take_terminal_writes}
use lector.Clipboard.System.Queue.{
  TerminalCall, writing, clearing, call_all, AreSequences, take_terminal_writes-call_all,
}

abbrev three : List Bytes
three = bytes "one" ∷ bytes "two" ∷ bytes "three" ∷ []

abbrev eleven : List Bytes
eleven =
    bytes "0"
    ∷ bytes "1"
    ∷ bytes "2"
    ∷ bytes "3"
    ∷ bytes "4"
    ∷ bytes "5"
    ∷ bytes "6"
    ∷ bytes "7"
    ∷ bytes "8"
    ∷ bytes "9"
    ∷ bytes "A"
    ∷ []

abbrev ring : Clipboard
ring = record { idx = 2; clipboards = three }

ring-IsValid : IsValid ring
ring-IsValid = record { is_bounded = omega arith; selects = omega arith }

eleventh : get (put_all empty eleven) ≡ some (bytes "A")
unfolding get put_all put
eleventh = refl

foobar : encode_base64 (bytes "fooba") ≡ some (bytes "Zm9vYmE=")
unfolding encode_base64 encode_chunk symbol
foobar = refl

entries-put_all_example :
    entries (put_all empty eleven)
    ≡ take internal_clipboard_capacity (reverse eleven ++ entries empty)
entries-put_all_example = entries-put_all empty eleven (omega arith)

apply_all-IsValid_example :
    IsValid (apply_all ring (putting (bytes "x") ∷ selecting 9 ∷ selecting_prev ∷ []))
apply_all-IsValid_example =
    apply_all-IsValid ring (putting (bytes "x") ∷ selecting 9 ∷ selecting_prev ∷ []) ring-IsValid

prev-next_example :
    (prev ring ≡ select_index ring (position ring - 1))
    × (next ring ≡ select_index ring (position ring + 1))
prev-next_example = prev-next ring ring-IsValid

select_index-Selects_example : Selects ring 2 (select_index ring 2)
select_index-Selects_example = select_index-Selects ring 2

osc52_write-IsEncoding_example :
    (e : Bytes) × (osc52_write (bytes "fooba") ≡ some (osc52_prefix ++ e ++ osc52_suffix))
    × IsEncoding (bytes "fooba") e
osc52_write-IsEncoding_example =
    osc52_write-IsEncoding (bytes "fooba")
      (omega arith, (omega arith, (omega arith, (omega arith, (omega arith, tt)))))

parse_register-iff-name_example :
    (parse_register (bytes "+") ≡ some internal) ↔ (bytes "+" ≡ register_name internal)
parse_register-iff-name_example = parse_register-iff-name (bytes "+") internal

abbrev platform : Platform
platform = record {
  World = Bytes;
  Handle = Unit;
  Failure = Unit;
  open_clipboard = λ w. (inr tt, w);
  get_text = λ h w. (found w, w);
  set_text = λ h text w. (none, text);
  clear_text = λ h w. (none, []);
}

abbrev unopened : SystemClipboard platform
unopened = record { handle = none; pending_terminal_writes = [] }

abbrev opened : SystemClipboard platform
opened = record { handle = some tt; pending_terminal_writes = [] }

native_read :
    read platform unopened (bytes "w") native ≡ (inr (some (bytes "w")), opened, bytes "w")
unfolding read
native_read = refl

abbrev calls : List TerminalCall
calls = writing (bytes "a") ∷ clearing ∷ []

take_terminal_writes-call_all_example :
    (sequences : List Bytes) × (c' : SystemClipboard platform) × (call_all platform unopened
        (bytes "w")
        calls
      ≡ some (c', bytes "w"))
    × AreSequences calls sequences
    × (take_terminal_writes platform c'
        ≡ ([] ++ sequences, record unopened { pending_terminal_writes = [] }))
take_terminal_writes-call_all_example =
    take_terminal_writes-call_all platform unopened (bytes "w") calls ((omega arith, tt), (tt, tt))
