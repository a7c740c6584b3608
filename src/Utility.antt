-- ===== src/Utility.antt =====
-- simgrid/organizer/utility.h: the array, mailbox and delay helpers of the simulator.
pub mod Remove
mod Tests
use hpv_c.Base.{
  ℕ, zero, suc, ◌+◌, ◌-◌, ◌*◌, ◌%◌, ◌^◌, Option, none, some, List, leb, ltb, get_elem?, store,
  if◌then◌else◌, ◌>>=◌, ◌>>◌, require,
}

-- The loop of `RemoveItemFromArray` with `n` rounds left: `array[i] = array[i + 1]`.
shift_down : ℕ → ℕ → List ℕ → Option (List ℕ)
shift_down zero i array = some array
shift_down (suc n) i array = do
  next ← get_elem? array (i + 1)
  array' ← store array i next
  shift_down n (i + 1) array'

-- The caller's `array` after the call: the loop makes `arraySize - 1 - index` rounds.
unfoldable pub remove_item_from_array : ℕ → List ℕ → ℕ → Option (List ℕ)
unfolding shift_down
remove_item_from_array index array array_size =
    if leb array_size index then some array else shift_down (array_size - 1 - index) index array

-- The values of `int` that are not negative. Signed overflow is undefined, so it is a fault.
abbrev pub int_bound : ℕ
int_bound = 2 ^ 31

abbrev pub checked_int : ℕ → Option ℕ
checked_int a = if ltb a int_bound then some a else none

-- `% 0` is undefined too.
unfoldable pub get_next_target_mail_box : ℕ → ℕ → ℕ → Option ℕ
get_next_target_mail_box mail_box_id process_sequence_number nu_vm = do
  require (ltb 0 nu_vm)
  total ← checked_int (mail_box_id + process_sequence_number)
  some (total % nu_vm)
