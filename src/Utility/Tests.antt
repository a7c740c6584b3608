-- ===== src/Utility/Tests.antt =====
-- Runs of the helpers of simgrid/organizer/utility.h.
use hpv_c.Base.{ℕ, ◌≡◌, refl, List, [], ◌∷◌, some, none, arith, length, take, drop}
use hpv_c.Utility.{remove_item_from_array, get_next_target_mail_box}
use hpv_c.Utility.Remove.{remove_item_from_array-remove_at}

abbrev slots : List ℕ
slots = 7 ∷ 8 ∷ 9 ∷ 0 ∷ 0 ∷ []

remove_second : remove_item_from_array 1 slots 3 ≡ some (7 ∷ 9 ∷ 9 ∷ 0 ∷ 0 ∷ [])
unfolding remove_item_from_array
remove_second = refl

remove_past_end : remove_item_from_array 5 slots 5 ≡ some slots
unfolding remove_item_from_array
remove_past_end = refl

next_mail_box : get_next_target_mail_box 7 5 10 ≡ some 2
unfolding get_next_target_mail_box
next_mail_box = refl

next_mail_box_overflow : get_next_target_mail_box 2147483647 1 10 ≡ none
unfolding get_next_target_mail_box
next_mail_box_overflow = refl

remove_item_from_array-remove_at_example :
    (out : List ℕ) × (remove_item_from_array 1 slots 3 ≡ some out)
    × (length out ≡ length slots)
    × (take 2 out ≡ 7 ∷ 9 ∷ [])
    × (drop 2 out ≡ drop 2 slots)
remove_item_from_array-remove_at_example =
    remove_item_from_array-remove_at 1 3 slots (omega arith) (omega arith)
