-- ===== src/Tests/Hierarchy.antt =====
-- Runs of the model of src/tmux_lifecycle.rs.
use lector.Prelude.{ℕ, ◌≡◌, ◌↔◌, refl, inl, none, some, List, [], ◌∷◌, ◌++◌}
use lector.Hierarchy.Origins.{Origins, direct, pane, find, missing_parent}
use lector.Hierarchy.Connections.{
  insert, check_ancestors, teardown_order, remove_connection, remove_gateway_pane,
  remove_gateway_window,
}
use lector.Hierarchy.Insertion.{IsValid, Inserted, insert-Inserted, empty-IsValid}
use lector.Hierarchy.Descent.{Descends, ChildrenFirst, teardown_order-Descends}
use lector.Hierarchy.Roots.{
  Removes, IsWithinAny, RunsInPane, RunsInWindow, remove_gateway_pane-Removes,
  remove_gateway_window-Removes,
}
use lector.Hierarchy.Keys.{IsIn}
use lector.Hierarchy.Removal.{IsWithin, remove_connection-IsValid}

abbrev one : Origins
one = (1, direct) ∷ []

abbrev two : Origins
two = (1, direct) ∷ (2, pane 1 0 7 5) ∷ []

abbrev three : Origins
three = (1, direct) ∷ (2, pane 1 0 7 5) ∷ (3, pane 2 0 8 6) ∷ []

one-IsValid : IsValid one
unfolding insert
one-IsValid = (insert-Inserted [] 1 direct empty-IsValid).0

two-IsValid : IsValid two
unfolding insert check_ancestors
two-IsValid = (insert-Inserted one 2 (pane 1 0 7 5) one-IsValid).0

three-IsValid : IsValid three
unfolding insert check_ancestors
three-IsValid = (insert-Inserted two 3 (pane 2 0 8 6) two-IsValid).0

orphan : insert two 3 (pane 9 0 0 0) ≡ inl missing_parent
unfolding insert
orphan = refl

pane_removed : remove_gateway_pane three 1 5 ≡ some (3 ∷ 2 ∷ [], one)
unfolding remove_gateway_pane
pane_removed = refl

window_kept : remove_gateway_window three 1 8 ≡ some ([], three)
unfolding remove_gateway_window
window_kept = refl

insert-Inserted_example : Inserted two 3 (pane 2 0 8 6) (insert two 3 (pane 2 0 8 6))
insert-Inserted_example = insert-Inserted two 3 (pane 2 0 8 6) two-IsValid

teardown_order-Descends_example :
    (ids : List ℕ) × (teardown_order three 1 ≡ some (ids ++ 1 ∷ []))
    × ((x : ℕ) → IsIn x ids ↔ Descends three 1 x)
    × ChildrenFirst three [] (ids ++ 1 ∷ [])
teardown_order-Descends_example = teardown_order-Descends three 1 direct three-IsValid refl

remove_connection-IsValid_example :
    (removed : List ℕ) × (origins' : Origins) × (remove_connection three 2
      ≡ some (removed, origins'))
    × ((x : ℕ) → IsIn x removed ↔ IsWithin three 2 x)
    × ChildrenFirst three [] removed
    × IsValid origins'
    × ((x : ℕ) → IsWithin three 2 x → find origins' x ≡ none)
    × ((x : ℕ) → (IsWithin three 2 x → ⊥) → find origins' x ≡ find three x)
remove_connection-IsValid_example =
    remove_connection-IsValid three 2 (pane 1 0 7 5) three-IsValid refl

remove_gateway_pane-Removes_example :
    Removes three (IsWithinAny three (RunsInPane three 1 5)) (remove_gateway_pane three 1 5)
remove_gateway_pane-Removes_example = remove_gateway_pane-Removes three 1 5 three-IsValid

remove_gateway_window-Removes_example :
    Removes three (IsWithinAny three (RunsInWindow three 2 8)) (remove_gateway_window three 2 8)
remove_gateway_window-Removes_example = remove_gateway_window-Removes three 2 8 three-IsValid
