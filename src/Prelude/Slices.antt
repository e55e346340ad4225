-- ===== src/Prelude/Slices.antt =====
-- Laws of `take` and `drop`, which model reads and moves of a part of a buffer.
use Prim.Native.Nat.{ℕ, zero, suc, ◌+◌, ◌≤◌}
use mathlib.Core.Path.{◌≡◌, refl, ap}
use mathlib.Core.List.{List, [], ◌∷◌, ◌++◌}
use native.Mathlib.Omega.{arith}
use usbmuxd_plugable_usb_msv.Prelude.Lists.{length, take, drop, length-append}

module _ {ℓ} {A : Type ℓ} where
  pub take_all : (xs : List A) (n : ℕ) → n ≡ length xs → take n xs ≡ xs
  take_all [] zero h = refl
  take_all [] (suc n) h = refl
  take_all (x ∷ xs) zero h = absurd (omega arith)
  take_all (x ∷ xs) (suc n) h = ap (◌∷◌ x) (take_all xs n (omega arith))

  pub take-drop : (m n k : ℕ) (xs : List A) → m + n ≡ k → take m (drop n xs) ≡ drop n (take k xs)
  take-drop m zero k xs h = ap (λ j. take j xs) (omega arith)
  take-drop zero (suc n) zero [] h = refl
  take-drop (suc m) (suc n) zero [] h = refl
  take-drop zero (suc n) (suc k) [] h = refl
  take-drop (suc m) (suc n) (suc k) [] h = refl
  take-drop m (suc n) zero (x ∷ xs) h = absurd (omega arith)
  take-drop m (suc n) (suc k) (x ∷ xs) h = take-drop m n k xs (omega arith)

  pub drop_all : (n : ℕ) (xs : List A) → length xs ≤ n → drop n xs ≡ []
  drop_all zero [] h = refl
  drop_all zero (x ∷ xs) h = absurd (omega arith)
  drop_all (suc n) [] h = refl
  drop_all (suc n) (x ∷ xs) h = drop_all n xs (omega arith)

  pub take-append_length :
      (n : ℕ) (xs ys : List A) → n ≡ length xs + length ys → take n (xs ++ ys) ≡ xs ++ ys
  take-append_length n xs ys h = take_all (xs ++ ys) n (omega (arith, length-append xs ys))

  pub drop-append_length : (n : ℕ) (xs ys : List A) → n ≡ length xs → drop n (xs ++ ys) ≡ ys
  drop-append_length zero [] ys h = refl
  drop-append_length (suc n) [] ys h = absurd (omega arith)
  drop-append_length zero (x ∷ xs) ys h = absurd (omega arith)
  drop-append_length (suc n) (x ∷ xs) ys h = drop-append_length n xs ys (omega arith)
