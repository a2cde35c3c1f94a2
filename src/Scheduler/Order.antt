-- ===== src/Scheduler/Order.antt =====
-- The order of the bytes that src/output_scheduler.rs writes.
use lector.Prelude.{
  ℕ, zero, suc, ◌+◌, ◌-◌, min, ◌≡◌, refl, sym, ap, ◌∙◌, true, List, [], ◌∷◌, ◌++◌, append_assoc,
  arith, Bytes, is_empty, length, take, drop,
}
use lector.Scheduler.State.{TrackedRender, ActiveTransaction, remaining}
use lector.Scheduler.Writing.{
  LoopLimits, complete, Loop, next_move, await_render, accepted, advance,
}

drop-nil : (n : ℕ) → drop {A = ℕ} n [] ≡ []
drop-nil zero = refl
drop-nil (suc n) = refl

drop-add : (n m : ℕ) (bs : Bytes) → drop (n + m) bs ≡ drop m (drop n bs)
drop-add zero m bs = ap (λ k. drop k bs) (omega arith)
drop-add (suc n) m [] = drop-nil (suc n + m) ∙ sym (drop-nil m)
drop-add (suc n) m (b ∷ bs) =
    let same : suc n + m ≡ suc (n + m) = omega arith in
    ap (λ k. drop k (b ∷ bs)) same ∙ drop-add n m bs

-- What is taken is the beginning of what there is.
taken-append-drop :
    (n m : ℕ) (bs : Bytes) → take n (take m bs) ++ drop (length (take n (take m bs))) bs ≡ bs
taken-append-drop zero m bs = refl
taken-append-drop (suc n) zero bs = refl
taken-append-drop (suc n) (suc m) [] = refl
taken-append-drop (suc n) (suc m) (b ∷ bs) = ap (λ rest. b ∷ rest) (taken-append-drop n m bs)

is_empty→nil : (bs : Bytes) → is_empty bs ≡ true → bs ≡ []
is_empty→nil [] h = refl
is_empty→nil (b ∷ bs) h = cc

module _ {S B : Type 0} where
  -- The bytes of the transactions that are not written yet, in order
  unfoldable pub unwritten : List (ActiveTransaction S B) → Bytes
  unwritten [] = []
  unwritten (t ∷ ts) = remaining t ++ unwritten ts

  pub complete-is_empty :
      (p : LoopLimits) (written : ℕ) (t : ActiveTransaction S B)
      → next_move p written t ≡ complete
      → is_empty (remaining t) ≡ true
  unfolding next_move
  complete-is_empty p written t e = ground (arith, e)

  pub accepted-remaining :
      (p : LoopLimits) (n : ℕ) (t : ActiveTransaction S B) (l : Loop S B)
      → accepted p n t l ++ remaining (advance (accepted p n t l) t) ≡ remaining t
  accepted-remaining p n t l =
      ap (λ (bs : Bytes). accepted p n t l ++ bs)
        (drop-add t.offset (length (accepted p n t l)) t.bytes)
      ∙ taken-append-drop n (min (length (remaining t)) (p.budget - l.bytes_written)) (remaining t)

module _ {S B : Type 0} (total : Bytes) where
  -- The output and what is unwritten make up the whole.
  unfoldable pub Conserves :
      List (ActiveTransaction S B) → List (TrackedRender S B) → Bytes → Type 0
  unfolding unwritten
  Conserves ts renders output = output ++ unwritten ts ≡ total

  pub popped-Conserves :
      (t : ActiveTransaction S B) (ts : List (ActiveTransaction S B))
      (renders : List (TrackedRender S B)) (output : Bytes)
      → is_empty (remaining t) ≡ true
      → Conserves (t ∷ ts) renders output
      → Conserves ts (await_render t.completed_render renders) output
  unfolding Conserves unwritten
  popped-Conserves t ts renders output h q =
      ap (λ (bs : Bytes). output ++ (bs ++ unwritten ts)) (sym (is_empty→nil (remaining t) h)) ∙ q

  pub written-Conserves :
      (t : ActiveTransaction S B) (ts : List (ActiveTransaction S B))
      (renders : List (TrackedRender S B)) (output taken : Bytes)
      → taken ++ remaining (advance taken t) ≡ remaining t
      → Conserves (t ∷ ts) renders output
      → Conserves (advance taken t ∷ ts) renders (output ++ taken)
  unfolding Conserves unwritten
  written-Conserves t ts renders output taken h q =
      append_assoc output taken (remaining (advance taken t) ++ unwritten ts)
      ∙ ap (λ (bs : Bytes). output ++ bs)
          (sym (append_assoc taken (remaining (advance taken t)) (unwritten ts))
            ∙ ap (λ (bs : Bytes). bs ++ unwritten ts) h)
      ∙ q
