-- ===== src/Device/Ports/Search.antt =====
-- device.cpp: the searches of `find_sport` and `get_next_device_id` end, and find an unused number.
use usbmuxd_plugable_usb_msv.Prelude.{
  ltb, ℕ, zero, suc, ◌+◌, ◌%◌, ◌^◌, ◌≤◌, ◌<◌, ◌≡◌, ◌≢◌, ◌⊎◌, inl, inr, refl, List, [], ◌∷◌, true,
  false, Option, some, arith, ◌==◌, if◌then◌else◌, length, Bool-cases, subst,
}
use native.Mathlib.Decide.{ℕ_discrete}
use usbmuxd_plugable_usb_msv.Collection
use usbmuxd_plugable_usb_msv.Collection.Laws.{count-items}
use usbmuxd_plugable_usb_msv.World.{World, MuxDevice, update}
use usbmuxd_plugable_usb_msv.World.Step.{Outcome-cases, done, fault}
use usbmuxd_plugable_usb_msv.Device.Ports.{
  in_use, search_sport, sports_of, sport_rounds, find_sport, search_id, ids_of, int_limit,
  get_next_device_id,
}

-- The list without the first occurrence of a number.
erase_one : ℕ → List ℕ → List ℕ
erase_one n [] = []
erase_one n (m ∷ ms) = if n == m then ms else m ∷ erase_one n ms

length-erase_one :
    (n : ℕ) (ms : List ℕ) → in_use n ms ≡ true → length ms ≡ suc (length (erase_one n ms))
unfolding erase_one
length-erase_one n [] h = cc
length-erase_one n (m ∷ ms) h = ground (arith, length-erase_one n ms)

in_use-erase_one :
    (n k : ℕ) (ms : List ℕ) → n ≢ k → in_use n ms ≡ true → in_use n (erase_one k ms) ≡ true
unfolding erase_one
in_use-erase_one n k [] ne h = h
in_use-erase_one n k (m ∷ ms) ne h = ground (arith, in_use-erase_one n k ms)

-- As many different numbers as are in use take at least as many places.
pigeonhole :
    (k : ℕ) (f : ℕ → ℕ) (ms : List ℕ)
    → ((i : ℕ) → i < k → in_use (f i) ms ≡ true)
    → ((i j : ℕ) → i < j → j < k → f i ≢ f j)
    → k ≤ length ms
pigeonhole zero f ms h apart = omega arith
pigeonhole (suc k) f ms h apart = omega (
  arith,
  length-erase_one (f k) ms (h k (omega arith)),
  pigeonhole k f (erase_one (f k) ms)
      (λ i p. in_use-erase_one (f i) (f k) ms (apart i k p (omega arith)) (h i (omega arith)))
      (λ i j p q. apart i j p (omega arith)),
)

-- An answer of a search: a number of the range that is not in use.
abbrev pub Finds : Option ℕ → List ℕ → Type 0
Finds r ms = (n : ℕ) × (r ≡ some n) × (in_use n ms ≡ false)

search_sport_cases :
    (fuel : ℕ) (ports : List ℕ) (next : ℕ)
    → next < 2 ^ 16
    → Finds (search_sport fuel ports next) ports
      ⊎ ((i : ℕ) → i < fuel → in_use ((next + i) % 2 ^ 16) ports ≡ true)
unfolding search_sport
search_sport_cases zero ports next h = inr (λ i p. absurd (omega arith))
search_sport_cases (suc fuel) ports next h = elim (Bool-cases (in_use next ports)) [
  | inl used ↦
      rw (used, search_sport)
        (elim (search_sport_cases fuel ports ((next + 1) % 2 ^ 16) (omega arith)) [
          | inl found ↦ inl found
          | inr all ↦ inr (later used all)
        ])
  | inr unused ↦ rw (unused, search_sport) (inl (next, refl, unused))
]
  where
    later :
        in_use next ports ≡ true
        → ((i : ℕ) → i < fuel → in_use (((next + 1) % 2 ^ 16 + i) % 2 ^ 16) ports ≡ true)
        → (i : ℕ) → i < suc fuel
        → in_use ((next + i) % 2 ^ 16) ports ≡ true
    later used all zero p = rw (here next h) used
      where
        here : (n : ℕ) → n < 2 ^ 16 → (n + 0) % 2 ^ 16 ≡ n
        here n q = omega arith
    later used all (suc i) p = rw (shift i) (all i (omega arith))
      where
        shift : (i : ℕ) → (next + suc i) % 2 ^ 16 ≡ ((next + 1) % 2 ^ 16 + i) % 2 ^ 16
        shift i = omega arith

-- The loop of `find_sport` ends as long as some port is free: with more rounds than ports in use,
-- at most 2 ^ 16, it returns a port that no connection has, wherever it starts.
pub search_sport_total :
    (fuel : ℕ) (ports : List ℕ) (next : ℕ)
    → next < 2 ^ 16
    → fuel ≤ 2 ^ 16
    → length ports < fuel
    → Finds (search_sport fuel ports next) ports
search_sport_total fuel ports next h small room = elim (search_sport_cases fuel ports next h) [
  | inl found ↦ found
  | inr all ↦ absurd (
      omega
        (arith, pigeonhole fuel (λ i. (next + i) % 2 ^ 16) ports all (λ i j p q e. omega arith)))
]

-- The first number from `next` on that is not in use, at most `fuel` behind it.
abbrev pub FindsFirst : Option ℕ → List ℕ → ℕ → ℕ → Type 0
FindsFirst r ids next fuel =
    (n : ℕ) × (r ≡ some n)
    × (in_use n ids ≡ false)
    × (next ≤ n)
    × (n < next + fuel)
    × ((j : ℕ) → next ≤ j → j < n → in_use j ids ≡ true)

search_id_cases :
    (fuel : ℕ) (ids : List ℕ) (next : ℕ)
    → FindsFirst (search_id fuel ids next) ids next fuel
      ⊎ ((i : ℕ) → i < fuel → in_use (next + i) ids ≡ true)
unfolding search_id
search_id_cases zero ids next = inr (λ i p. absurd (omega arith))
search_id_cases (suc fuel) ids next = elim (Bool-cases (in_use next ids)) [
  | inl used ↦
      rw (used, search_id)
        (elim (search_id_cases fuel ids (next + 1)) [
          | inl (n, found, unused, low, high, first) ↦ inl (
            n,
            found,
            unused,
            omega arith,
            omega arith,
            λ j p q. elim (ℕ_discrete next j) [
              | yes e ↦ subst (λ k. in_use k ids ≡ true) e used
              | no ne ↦ first j (omega arith) q
            ],
          )
          | inr all ↦ inr (later used all)
        ])
  | inr unused ↦
      rw (unused, search_id)
        (inl (next, refl, unused, omega arith, omega arith, λ j p q. absurd (omega arith)))
]
  where
    later :
        in_use next ids ≡ true
        → ((i : ℕ) → i < fuel → in_use (next + 1 + i) ids ≡ true)
        → (i : ℕ) → i < suc fuel
        → in_use (next + i) ids ≡ true
    later used all zero p = rw (here next) used
      where
        here : (n : ℕ) → n + 0 ≡ n
        here n = omega arith
    later used all (suc i) p = rw (shift i) (all i (omega arith))
      where
        shift : (i : ℕ) → next + suc i ≡ next + 1 + i
        shift i = omega arith

search_id_total :
    (ids : List ℕ) (next : ℕ)
    → FindsFirst (search_id (suc (length ids)) ids next) ids next (suc (length ids))
search_id_total ids next = elim (search_id_cases (suc (length ids)) ids next) [
  | inl found ↦ found
  | inr all ↦ absurd (
      omega
        (arith, pigeonhole (suc (length ids)) (λ i. next + i) ids all (λ i j p q e. omega arith)))
]

length-sports_of :
    (ps ports : List ℕ) (w v : World) → sports_of ps w ≡ done ports v → length ports ≡ length ps
unfolding sports_of
length-sports_of [] ports w v h = ground arith
length-sports_of (p ∷ ps) ports w v h = elim (Outcome-cases (sports_of ps w)) [
  | inl (rest, u, e) ↦ ground (arith, e, length-sports_of ps rest w u e)
  | inr (inl e) ↦ ground (arith, e)
  | inr (inr e) ↦ ground (arith, e)
]

-- `find_sport` for a device whose connections have these ports: with 65535 connections or more it
-- gives up, and otherwise it returns a port that none of them has, and goes on behind it next time.
pub find_sport_lem :
    (dev : ℕ) (d : MuxDevice) (col : Collection.Collection) (ports : List ℕ) (w : World)
    → w.devices dev ≡ some d
    → d.connections ≡ some col
    → d.next_sport < 2 ^ 16
    → sports_of (Collection.items col) w ≡ done ports w
    → ((65535 ≤ Collection.count col) × (find_sport dev w ≡ done 0 w))
      ⊎ ((Collection.count col < 65535)
          × ((sport : ℕ) × (find_sport dev w
                ≡ done sport (record w {
                  devices =
                      update w.devices dev (some (record d { next_sport = (sport + 1) % 2 ^ 16 }));
                }))
              × (in_use sport ports ≡ false)))
unfolding find_sport
find_sport_lem dev d col ports w found listed h loaded =
    elim (Bool-cases (ltb (Collection.count col) 65535)) [
      | inr big ↦ inl (ground arith, ground (arith, big))
      | inl room ↦
          let (sport, e, unused) =
            search_sport_total sport_rounds ports d.next_sport h (omega arith) (
              ground (
                arith,
                room,
                length-sports_of (Collection.items col) ports w w loaded,
                count-items col,
              )) in
          inr (ground arith, (sport, ground (arith, e, room), unused))
    ]

-- `get_next_device_id` finds the first id from `next_device_id` on that no listed device has, at most
-- as many behind it as there are devices. If there is a next `int`, the id is returned and
-- `next_device_id` set behind it; if not, the counter overflows.
pub get_next_device_id_lem :
    (ids : List ℕ) (w : World)
    → ids_of (Collection.items w.device_list) w ≡ done ids w
    → (id : ℕ) × (in_use id ids ≡ false)
      × (w.next_device_id ≤ id)
      × (id ≤ w.next_device_id + length ids)
      × ((j : ℕ) → w.next_device_id ≤ j → j < id → in_use j ids ≡ true)
      × (((id + 1 < int_limit)
            × (get_next_device_id w ≡ done id (record w { next_device_id = id + 1 })))
          ⊎ ((int_limit ≤ id + 1) × (get_next_device_id w ≡ fault)))
unfolding get_next_device_id
get_next_device_id_lem ids w loaded =
    let (id, e, unused, low, high, first) = search_id_total ids w.next_device_id in
    (
      id,
      unused,
      low,
      omega arith,
      first,
      elim (Bool-cases (ltb (id + 1) int_limit)) [
        | inl room ↦ inl (ground (arith, room), ground (arith, loaded, e, room))
        | inr full ↦ inr (ground (arith, full), ground (arith, loaded, e, full))
      ],
    )
