-- ===== src/Collection.antt =====
-- The pointer collections of utils.cpp and utils.h: an array of slots, a null slot being free.
-- The model holds the array alone: `capacity` is its length. A pointer is its address.
pub mod Laws
use usbmuxd_plugable_usb_msv.Prelude.{
  ℕ, suc, List, [], ◌∷◌, Option, none, some, ◌==◌, if◌then◌else◌, replicate,
}

-- `CAPACITY_STEP`
abbrev pub capacity_step : ℕ
capacity_step = 8

-- `void **list`, with `int capacity` for its length
pub record Collection : Type 0 where
  pub list : List (Option ℕ)

-- `collection_init`
unfoldable pub init : Collection
init = record { list = replicate capacity_step none }

-- `collection_free`
unfoldable pub free : Collection → Collection
free col = record { list = [] }

-- The loop of `collection_add`, and the `realloc` behind it when every slot is taken.
unfoldable pub add_slot : List (Option ℕ) → ℕ → List (Option ℕ)
add_slot [] x = some x ∷ replicate 7 none
add_slot (none ∷ rest) x = some x ∷ rest
add_slot (some y ∷ rest) x = some y ∷ add_slot rest x

-- `collection_add`
unfoldable pub add : Collection → ℕ → Collection
add col x = record { list = add_slot col.list x }

-- The loop of `collection_remove`: the first slot that holds the element is cleared.
unfoldable pub remove_slot : List (Option ℕ) → ℕ → List (Option ℕ)
remove_slot [] x = []
remove_slot (none ∷ rest) x = none ∷ remove_slot rest x
remove_slot (some y ∷ rest) x = if y == x then none ∷ rest else some y ∷ remove_slot rest x

-- `collection_remove`; an element that is not there is only logged.
unfoldable pub remove : Collection → ℕ → Collection
remove col x = record { list = remove_slot col.list x }

-- The loop of `collection_count`.
unfoldable pub count_slots : List (Option ℕ) → ℕ
count_slots [] = 0
count_slots (none ∷ rest) = count_slots rest
count_slots (some y ∷ rest) = suc (count_slots rest)

-- `collection_count`
unfoldable pub count : Collection → ℕ
count col = count_slots col.list

-- `collection_copy`: a block of the same capacity with the same pointers.
unfoldable pub copy : Collection → Collection
copy src = record { list = src.list }

-- What `FOREACH` visits, in its order, while the body leaves the collection alone.
unfoldable pub taken : List (Option ℕ) → List ℕ
taken [] = []
taken (none ∷ rest) = taken rest
taken (some y ∷ rest) = y ∷ taken rest

unfoldable pub items : Collection → List ℕ
items col = taken col.list
