-- ===== src/Gateway/Transparency.antt =====
-- The marker filter of `push` in src/tmux_gateway.rs on bytes without the marker (docs/tmux-gateway.md).
use mathlib.Core.List.{map-append}
use lector.Prelude.{
  ℕ, suc, ◌<◌, ◌≡◌, refl, sym, ap, ◌∙◌, subst, inl, inr, true, Option, none, some, List, [], ◌∷◌,
  ◌++◌, map, Bytes, arith, ◌==◌, is_empty, length, length-append, take, get_elem?, get_elem?-take,
  get_elem?-lt, Bool-cases, append_assoc, append-nil, ==→eq,
}
use lector.Gateway.Router.{control_start_marker, GatewayEvent, ActiveControl, TmuxGatewayRouter}
use lector.Gateway.Iteration.{
  Loop, Round, consumed, again, failed, panicked, direct_round, round_in, round, Outcome, pushed,
  push,
}
use lector.Gateway.Rounds.{
  again_once, take_byte, take_bytes, continue_take, NotAgain, take_byte-NotAgain, take_bytes-cons,
  push-take_bytes,
}
use lector.Gateway.Items.{
  output_byte, split_output, items, emitted, emit_direct-emitted, items-emitted,
}
use lector.Gateway.Lifecycle.{Connected, IsRouted}
use lector.Gateway.Totality.{marker_prefix-IsRouted}

abbrev pub idle : ℕ → Bytes → List GatewayEvent → Bytes → Loop
idle id prefix e d = record {
  router = record { marker_prefix = prefix; active = none; next_connection_id = id };
  events = e;
  direct = d;
}

-- `t` ends with the marker.
abbrev pub EndsInMarker : Bytes → Type 0
EndsInMarker t = (front : Bytes) × (t ≡ front ++ control_start_marker)

-- In direct mode, with `t` read: `front` has passed, and the rest is kept as a prefix of the marker.
record IsScanned (id : ℕ) (t : Bytes) (l : Loop) : Type 0 where
  pub front : Bytes
  pub direct_mode : l.router.active ≡ none
  pub routed : IsRouted id l.router
  pub total : front ++ l.router.marker_prefix ≡ t
  pub passed : items l.events l.direct ≡ map output_byte front

abbrev Scans : ℕ → Bytes → ℕ → Round → Type 0
Scans id t byte (consumed l) = IsScanned id (t ++ byte ∷ []) l
Scans id t byte (again l) = IsScanned id t l
Scans id t byte _ = ⊥

is_empty→nil : (xs : Bytes) → is_empty xs ≡ true → xs ≡ []
is_empty→nil [] h = refl
is_empty→nil (x ∷ xs) h = cc

items-snoc :
    (e : List GatewayEvent) (d xs : Bytes) → items e (d ++ xs) ≡ items e d ++ map output_byte xs
unfolding items
items-snoc e d xs = simp (map-append, append_assoc)

module _ (id : ℕ) (prefix : Bytes) (e : List GatewayEvent) (d front : Bytes) (byte : ℕ)
    (is_prefix : prefix ≡ take (length prefix) control_start_marker)
    (is_proper : length prefix < length control_start_marker)
    (passed : items e d ≡ map output_byte front)
    (unmarked : EndsInMarker ((front ++ prefix) ++ byte ∷ []) → ⊥) where
  released : (xs : Bytes) → items e (d ++ xs) ≡ map output_byte (front ++ xs)
  released xs =
      items-snoc e d xs ∙ ap (λ ys. ys ++ map output_byte xs) passed ∙ sym (map-append _ front xs)

  completed :
      get_elem? control_start_marker (length prefix) ≡ some byte
      → length (prefix ++ byte ∷ []) ≡ length control_start_marker
      → (front ++ prefix) ++ byte ∷ [] ≡ front ++ control_start_marker
  completed x g =
      let full : suc (length prefix) ≡ length control_start_marker =
        omega (arith, length-append prefix (byte ∷ []), g) in
      append_assoc front prefix (byte ∷ [])
      ∙ ap (λ ys. front ++ ys)
          (ap (λ ys. ys ++ byte ∷ []) is_prefix
            ∙ get_elem?-take control_start_marker (length prefix) byte x
            ∙ ap (λ n. take n control_start_marker) full)

  direct_round-Scans : Scans id (front ++ prefix) byte (direct_round (idle id prefix e d) byte)
  unfolding direct_round
  direct_round-Scans =
      let (expected, x) = get_elem?-lt control_start_marker (length prefix) is_proper in
      rw x (elim (Bool-cases (byte == expected)) [
        | inl f ↦
            rw f (elim (Bool-cases (length (prefix ++ byte ∷ []) == length control_start_marker)) [
              | inl g ↦ absurd (
                  unmarked
                    (front, completed (x ∙ ap some (sym (==→eq byte expected f))) (==→eq _ _ g)))
              | inr g ↦ rw g (record {
                front = front;
                direct_mode = refl;
                routed =
                    marker_prefix-IsRouted id prefix byte is_prefix is_proper
                      (x ∙ ap some (sym (==→eq byte expected f))) (ground arith);
                total = sym (append_assoc front prefix (byte ∷ []));
                passed = passed;
              })
            ])
        | inr f ↦ rw f (elim (Bool-cases (is_empty prefix)) [
          | inl g ↦ rw g (record {
            front = front ++ byte ∷ [];
            direct_mode = refl;
            routed = record { is_prefix = is_prefix; is_proper = is_proper; connected = refl };
            total =
                rw (is_empty→nil prefix g)
                  (append-nil _ ∙ ap (λ ys. ys ++ byte ∷ []) (sym (append-nil front)));
            passed = released (byte ∷ []);
          })
          | inr g ↦ rw g (record {
            front = front ++ prefix;
            direct_mode = refl;
            routed = record { is_prefix = refl; is_proper = omega arith; connected = refl };
            total = append-nil _;
            passed = released prefix;
          })
        ])
      ])

round-Scans :
    (id : ℕ) (t : Bytes) (l : Loop) (byte : ℕ)
    → IsScanned id t l
    → (EndsInMarker (t ++ byte ∷ []) → ⊥)
    → Scans id t byte (round l byte)
unfolding round round_in
round-Scans id t l byte h unmarked =
    let at : Option ActiveControl → ℕ → Loop =
      λ o n. record l { router = record l.router { active = o; next_connection_id = n } } in
    let reread : Option ActiveControl → ℕ → Type 0 =
      λ o n. Scans id t byte (round_in o (at o n) byte) in
    let next_id : l.router.next_connection_id ≡ id =
      subst (λ o. Connected id o l.router.next_connection_id l.router.marker_prefix) h.direct_mode
        h.routed.connected in
    subst (λ o. reread o l.router.next_connection_id) (sym h.direct_mode)
      (subst (λ n. reread none n) (sym next_id)
        (subst (λ u. Scans id u byte (direct_round (at none id) byte)) h.total
          (direct_round-Scans id l.router.marker_prefix l.events l.direct h.front byte
            h.routed.is_prefix h.routed.is_proper h.passed
            (subst (λ u. EndsInMarker (u ++ byte ∷ []) → ⊥) (sym h.total) unmarked))))

again_once-Scans :
    (id : ℕ) (t : Bytes) (byte : ℕ) (m : Round) (k : Loop → Round)
    → Scans id t byte m
    → ((l : Loop) → IsScanned id t l → Scans id t byte (k l))
    → Scans id t byte (again_once m k)
again_once-Scans id t byte (again l) k h hk = hk l h
again_once-Scans id t byte (consumed l) k h hk = h
again_once-Scans id t byte (failed e r) k h hk = absurd h
again_once-Scans id t byte panicked k h hk = absurd h

take_byte-Scans :
    (id : ℕ) (t : Bytes) (l : Loop) (byte : ℕ)
    → IsScanned id t l
    → (EndsInMarker (t ++ byte ∷ []) → ⊥)
    → Scans id t byte (take_byte l byte)
unfolding take_byte
take_byte-Scans id t l byte h unmarked =
    again_once-Scans id t byte (round l byte) _ (round-Scans id t l byte h unmarked) λ l1 h1.
      again_once-Scans id t byte (round l1 byte) _ (round-Scans id t l1 byte h1 unmarked)
        λ l2 h2. round-Scans id t l2 byte h2 unmarked

-- `t` has the marker in it.
abbrev pub HasMarker : Bytes → Type 0
HasMarker t = (front : Bytes) × (back : Bytes) × (t ≡ front ++ control_start_marker ++ back)

-- The outcome of a `push` that only passes bytes: `t` is what was passed and what is kept.
abbrev pub Passes : ℕ → Bytes → Option Outcome → Type 0
Passes id t (some (pushed events r)) =
    IsRouted id r
    × (r.active ≡ none)
    × ((front : Bytes) × (split_output events ≡ map output_byte front)
        × (front ++ r.marker_prefix ≡ t))
Passes id t _ = ⊥

finished-Passes : (id : ℕ) (t : Bytes) (l : Loop) → IsScanned id t l → Passes id t (take_bytes l [])
unfolding take_bytes
finished-Passes id t l h =
    let flat : split_output (emitted l.events l.direct) ≡ items l.events l.direct =
      sym (append-nil _) ∙ (unfold items in items-emitted l.events l.direct) in
    rw (emit_direct-emitted l.router l.events l.direct)
      (h.routed, h.direct_mode, (h.front, flat ∙ h.passed, h.total))

take_bytes-Passes :
    (id : ℕ) (bs : Bytes) (t : Bytes) (l : Loop)
    → IsScanned id t l
    → (HasMarker (t ++ bs) → ⊥)
    → Passes id (t ++ bs) (take_bytes l bs)
take_bytes-Passes id [] t l h unmarked = rw (append-nil t) (finished-Passes id t l h)
take_bytes-Passes id (byte ∷ bs) t l h unmarked = rw (take_bytes-cons l byte bs) (
    step (take_byte l byte) (take_byte-NotAgain l byte)
      (take_byte-Scans id t l byte h λ (front, e).
        unmarked (front, bs, sym (append_assoc t (byte ∷ []) bs) ∙ ap (λ ys. ys ++ bs) e))
      λ k s.
        take_bytes-Passes id bs (t ++ byte ∷ []) k s
          λ (front, back, e). unmarked (front, back, sym (append_assoc t (byte ∷ []) bs) ∙ e))
  where
    step :
        (m : Round)
        → NotAgain m
        → Scans id t byte m
        → ((k : Loop)
            → IsScanned id (t ++ byte ∷ []) k
            → Passes id ((t ++ byte ∷ []) ++ bs) (take_bytes k bs))
        → Passes id (t ++ byte ∷ bs) (continue_take bs m)
    step (consumed k) n s ih =
        subst (λ u. Passes id u (take_bytes k bs)) (append_assoc t (byte ∷ []) bs) (ih k s)
    step (again k) n s ih = absurd n
    step (failed e r) n s ih = absurd s
    step panicked n s ih = absurd s

-- In direct mode, in a router that keeps the invariant, when neither the bytes that are kept nor the
-- input between them hold the marker, `push` returns nothing but direct output, and its bytes, with
-- those that it keeps, are those that were kept and the input, in order; the router stays in direct
-- mode.
pub push-Passes :
    (id : ℕ) (r : TmuxGatewayRouter) (bs : Bytes)
    → IsRouted id r
    → r.active ≡ none
    → (HasMarker (r.marker_prefix ++ bs) → ⊥)
    → Passes id (r.marker_prefix ++ bs) (push r bs)
push-Passes id r bs h direct_mode unmarked = rw (push-take_bytes r bs) (
    take_bytes-Passes id bs r.marker_prefix (record { router = r; events = []; direct = [] })
      (record {
        front = [];
        direct_mode = direct_mode;
        routed = h;
        total = refl;
        passed = unfold items split_output in refl;
      })
      unmarked)
