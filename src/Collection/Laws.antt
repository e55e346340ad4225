-- ===== src/Collection/Laws.antt =====
-- utils.cpp: a collection is a multiset of pointers in blocks of eight slots.
use mathlib.Core.List.{Perm, Mem, not-mem-nil, mem-cons}
use mathlib.Core.List.Perm
use mathlib.Core.Logic.Or
use usbmuxd_plugable_usb_msv.Prelude.{
  ℕ, suc, ◌+◌, ◌%◌, ◌≡◌, refl, ap, ◌⊎◌, inl, inr, false, List, [], ◌∷◌, Option, none, some, arith,
  ◌==◌, length, Bool-cases, ==_iff,
}
use usbmuxd_plugable_usb_msv.Collection.{
  Collection, capacity_step, add_slot, add, remove_slot, remove, count_slots, count, taken, items,
}

taken-add_slot : (l : List (Option ℕ)) (x : ℕ) → Perm (taken (add_slot l x)) (x ∷ taken l)
unfolding add_slot taken
taken-add_slot [] x = Perm.refl _
taken-add_slot (none ∷ rest) x = Perm.refl _
taken-add_slot (some y ∷ rest) x =
    Perm.trans (Perm.cons y (taken-add_slot rest x)) (Perm.swap x y (taken rest))

-- After `collection_add` the collection holds what it held and the new element once more.
items-add : (col : Collection) (x : ℕ) → Perm (items (add col x)) (x ∷ items col)
unfolding add items
items-add col x = taken-add_slot col.list x

length-add_slot :
    (l : List (Option ℕ)) (x : ℕ)
    → (length (add_slot l x) ≡ length l) ⊎ (length (add_slot l x) ≡ length l + capacity_step)
unfolding add_slot
length-add_slot [] x = inr refl
length-add_slot (none ∷ rest) x = inl refl
length-add_slot (some y ∷ rest) x = ground (arith, length-add_slot rest x)

-- The capacity stays a multiple of `CAPACITY_STEP`.
pub capacity-add :
    (col : Collection) (x : ℕ)
    → length col.list % capacity_step ≡ 0
    → length (add col x).list % capacity_step ≡ 0
unfolding add
capacity-add col x h = ground (arith, length-add_slot col.list x)

length-remove_slot : (l : List (Option ℕ)) (x : ℕ) → length (remove_slot l x) ≡ length l
unfolding remove_slot
length-remove_slot [] x = refl
length-remove_slot (none ∷ rest) x = ap suc (length-remove_slot rest x)
length-remove_slot (some y ∷ rest) x = ground (arith, length-remove_slot rest x)

pub capacity-remove : (col : Collection) (x : ℕ) → length (remove col x).list ≡ length col.list
unfolding remove
capacity-remove col x = length-remove_slot col.list x

taken-remove_slot :
    (l : List (Option ℕ)) (x : ℕ) → Mem x (taken l) → Perm (taken l) (x ∷ taken (remove_slot l x))
unfolding remove_slot taken
taken-remove_slot [] x m = absurd (not-mem-nil m)
taken-remove_slot (none ∷ rest) x m = taken-remove_slot rest x m
taken-remove_slot (some y ∷ rest) x m = elim (Bool-cases (y == x)) [
  | inl hit ↦ rw hit (rw ((==_iff y x).0 hit) (Perm.refl _))
  | inr miss ↦
      rw miss (Perm.trans (Perm.cons y (taken-remove_slot rest x (later miss))) (Perm.swap x y _))
]
  where
    other : (y == x) ≡ false → x ≡ y → ⊥
    other miss e = ground arith

    later : (y == x) ≡ false → Mem x (taken rest)
    later miss = Or.elim squash₁ (mem-cons.0 m) (λ e. absurd (other miss e)) (λ h. h)

-- `collection_remove` takes exactly one occurrence out.
items-remove :
    (col : Collection) (x : ℕ) → Mem x (items col) → Perm (items col) (x ∷ items (remove col x))
unfolding remove items
items-remove col x m = taken-remove_slot col.list x m

count_slots-taken : (l : List (Option ℕ)) → count_slots l ≡ length (taken l)
unfolding count_slots taken
count_slots-taken [] = refl
count_slots-taken (none ∷ rest) = count_slots-taken rest
count_slots-taken (some y ∷ rest) = ap suc (count_slots-taken rest)

-- `collection_count` counts what `FOREACH` visits.
pub count-items : (col : Collection) → count col ≡ length (items col)
unfolding count items
count-items col = count_slots-taken col.list
