-- ===== src/Scheduler/Capacity/Encoded.antt =====
-- How long what becomes active in src/output_scheduler.rs is, against what was counted for it.
use lector.Prelude.{
  ℕ, zero, suc, ◌+◌, ◌≤◌, ◌<◌, ◌/◌, ◌%◌, min, ◌≡◌, refl, Bool, true, false, Option, none, some,
  List, [], ◌∷◌, ◌++◌, arith, length, length-append, Bytes,
}
use lector.Topology.Text.{decimal, decimal_digits}
use lector.Scheduler.Effects.{
  TerminalEvent, title_changed, working_directory_changed, progress_report, bell, clipboard_write,
  desktop_notification, query, pty_reply, unknown_sequence, ProgressState, progress_code,
  progress_suffix, remove, set, error, indeterminate, pause, printable, write_osc,
  encode_terminal_effect, payload_bytes,
}
use lector.Scheduler.Markers.{
  synchronized_output_start, synchronized_output_end, keep_from,
  append_without_synchronization_markers,
}
use lector.Scheduler.Activation.{append_all, single, render_bytes, bell_bytes}
use lector.Scheduler.Visual.{sum_transactions, markers_len}

digits-one : (fuel n : ℕ) → n < 10 → length (decimal_digits (suc fuel) n) ≤ 1
unfolding decimal_digits
digits-one fuel n h = ground (arith, h)

digits-two : (fuel n : ℕ) → n < 100 → length (decimal_digits (suc (suc fuel)) n) ≤ 2
unfolding decimal_digits
digits-two fuel n h =
    let front = digits-one fuel (n / 10) (omega (arith, h)) in
    let joined = length-append (decimal_digits (suc fuel) (n / 10)) ((b'0' + n % 10) ∷ []) in
    ground (arith, front, joined)

digits-three : (fuel n : ℕ) → n < 1000 → length (decimal_digits (suc (suc (suc fuel))) n) ≤ 3
unfolding decimal_digits
digits-three fuel n h =
    let front = digits-two fuel (n / 10) (omega (arith, h)) in
    let joined = length-append (decimal_digits (suc (suc fuel)) (n / 10)) ((b'0' + n % 10) ∷ []) in
    ground (arith, front, joined)

decimal-one : (n : ℕ) → n < 10 → length (decimal n) ≤ 1
unfolding decimal
decimal-one n h = digits-one 19 n h

decimal-three : (n : ℕ) → n < 1000 → length (decimal n) ≤ 3
unfolding decimal
decimal-three n h = digits-three 17 n h

printable-length : (bs : Bytes) → length (printable bs) ≤ length bs
unfolding printable
printable-length [] = omega arith
printable-length (b ∷ bs) = let h = printable-length bs in ground (arith, h)

write_osc-length : (code : ℕ) (bs : Bytes) → code < 10 → length (write_osc code bs) ≤ length bs + 16
unfolding write_osc
write_osc-length code bs h =
    let p = printable-length bs in
    let d = decimal-one code h in
    let inner = length-append (printable bs) (0x1b ∷ b'\\' ∷ []) in
    let outer = length-append (decimal code) (b';' ∷ (printable bs ++ 0x1b ∷ b'\\' ∷ [])) in
    omega (arith, p, d, inner, outer)

progress_code-small : (state : ProgressState) → progress_code state < 10
unfolding progress_code
progress_code-small remove = omega arith
progress_code-small set = omega arith
progress_code-small error = omega arith
progress_code-small indeterminate = omega arith
progress_code-small pause = omega arith

progress_suffix-length : (progress : Option ℕ) → length (progress_suffix progress) ≤ 4
unfolding progress_suffix
progress_suffix-length none = omega arith
progress_suffix-length (some progress) =
    let d = decimal-three (min progress 100) (omega arith) in omega (arith, d)

pub encode-length :
    (event : TerminalEvent) → length (encode_terminal_effect event) ≤ payload_bytes event + 16
unfolding encode_terminal_effect payload_bytes
encode-length (title_changed title) = write_osc-length 2 title (omega arith)
encode-length (working_directory_changed directory) = write_osc-length 7 directory (omega arith)
encode-length (progress_report state progress) =
    let d = decimal-one (progress_code state) (progress_code-small state) in
    let p = progress_suffix-length progress in
    let inner = length-append (progress_suffix progress) (0x1b ∷ b'\\' ∷ []) in
    let outer =
      length-append (decimal (progress_code state))
        (progress_suffix progress ++ 0x1b ∷ b'\\' ∷ []) in
    omega (arith, d, p, inner, outer)
encode-length bell = omega arith
encode-length (clipboard_write _ _) = omega arith
encode-length (desktop_notification _ _) = omega arith
encode-length (query _) = omega arith
encode-length (pty_reply _) = omega arith
encode-length (unknown_sequence _ _) = omega arith

keep_from-length : (skip : ℕ) (bs : Bytes) → length (keep_from skip bs) ≤ length bs
unfolding keep_from
keep_from-length zero [] = omega arith
keep_from-length (suc skip) [] = omega arith
keep_from-length (suc skip) (b ∷ bs) = let h = keep_from-length skip bs in omega (arith, h)
keep_from-length zero (b ∷ bs) =
    let h = keep_from-length zero bs in let k = keep_from-length 7 bs in ground (arith, h, k)

append_all-length :
    (target : Bytes) (ts : List Bytes)
    → length (append_all target ts) ≤ length target + sum_transactions ts
unfolding append_all sum_transactions append_without_synchronization_markers
append_all-length target [] = omega arith
append_all-length target (t ∷ ts) =
    let h = append_all-length (target ++ keep_from 0 t) ts in
    let k = keep_from-length 0 t in
    let a = length-append target (keep_from 0 t) in omega (arith, h, k, a)

single-length : (t : Bytes) → length (single t) ≤ length t
unfolding single append_without_synchronization_markers
single-length t = let k = keep_from-length 0 t in ground (arith, k)

pub render_bytes-length :
    (supported : Bool) (ts : List Bytes)
    → length (render_bytes supported ts) ≤ sum_transactions ts + markers_len supported
unfolding render_bytes sum_transactions
render_bytes-length true ts =
    let h = append_all-length synchronized_output_start ts in
    let a = length-append (append_all synchronized_output_start ts) synchronized_output_end in
    omega (arith, h, a)
render_bytes-length false [] = omega arith
render_bytes-length false (t ∷ []) = let h = single-length t in omega (arith, h)
render_bytes-length false (t ∷ u ∷ ts) =
    let h = append_all-length [] (t ∷ u ∷ ts) in omega (arith, h)

pub bell_bytes-length : (n : ℕ) → length (bell_bytes n) ≡ n
unfolding bell_bytes
bell_bytes-length zero = refl
bell_bytes-length (suc n) = let h = bell_bytes-length n in omega (arith, h)
