-- ===== src/Examples/PaperHost.antt =====
-- A libplist of lists of numbers: a string is 1 and its bytes, a dictionary 0 and its items, each a
-- key and a value with a 0 behind it; XML is the list with "<" in front.
use usbmuxd_plugable_usb_msv.Prelude.{
  ℕ, zero, suc, ◌≡◌, ◌≢◌, inl, inr, refl, sym, ap, subst, ◌∙◌, List, [], ◌∷◌, ◌++◌, arith, length,
  drop, length-append, drop-append_length, true, false, Option, none, some, Bool-cases,
  if◌then◌else◌, ◌==◌, ◌+◌,
}
use Prim.Native.String.{String}
use text.Mathlib.TextEquality.{Char-path}
use usbmuxd_plugable_usb_msv.World.Host.{Host, PlistType, plist_string, plist_dict}
use usbmuxd_plugable_usb_msv.Client.Reply.{codes}
use usbmuxd_plugable_usb_msv.Client.Plist.{bytes_eq}
use usbmuxd_plugable_usb_msv.Config.{Platform, made}
use usbmuxd_plugable_usb_msv.Config.Files.{dir_sep, config_file_name, local_config_file}
use usbmuxd_plugable_usb_msv.Config.Laws.{Libplist, Writable, bytes_eq_refl, bytes_eq→≡}
use usbmuxd_plugable_usb_msv.Examples.{calm_host}

-- A list in front of a 0.
marked : List ℕ → List ℕ → List ℕ
marked [] rest = 0 ∷ rest
marked (x ∷ xs) rest = suc x ∷ marked xs rest

-- What stands in front of the first 0, and what behind it.
front : List ℕ → List ℕ
front [] = []
front (zero ∷ rest) = []
front (suc x ∷ rest) = x ∷ front rest

behind : List ℕ → List ℕ
behind [] = []
behind (zero ∷ rest) = rest
behind (suc x ∷ rest) = behind rest

front-marked : (xs rest : List ℕ) → front (marked xs rest) ≡ xs
unfolding front marked
front-marked [] rest = refl
front-marked (x ∷ xs) rest = ap (◌∷◌ x) (front-marked xs rest)

behind-marked : (xs rest : List ℕ) → behind (marked xs rest) ≡ rest
unfolding behind marked
behind-marked [] rest = refl
behind-marked (x ∷ xs) rest = behind-marked xs rest

codes-injective : (s t : String) → codes s ≡ codes t → s ≡ t
codes-injective String.[] String.[] e = refl
codes-injective String.[] (String.◌∷◌ c t) e = cc
codes-injective (String.◌∷◌ c s) String.[] e = cc
codes-injective (String.◌∷◌ c s) (String.◌∷◌ d t) e =
    ap2 (Char-path c d (head e)) (codes-injective s t (tail e))
  where
    head : {x y : ℕ} {xs ys : List ℕ} → x ∷ xs ≡ y ∷ ys → x ≡ y
    head p = cc

    tail : {x y : ℕ} {xs ys : List ℕ} → x ∷ xs ≡ y ∷ ys → xs ≡ ys
    tail p = cc

    ap2 : c ≡ d → s ≡ t → String.◌∷◌ c s ≡ String.◌∷◌ d t
    ap2 p q = cc

-- The value of a key among the items: at the start of an item, in its value, or in its key.
data Place : Type 0 where
  start in_value in_key : Place

find_value : List ℕ → Place → List ℕ → Option (List ℕ)
find_value key place [] = none
find_value key start (zero ∷ rest) =
    if bytes_eq [] key then some (front rest) else find_value key in_value rest
find_value key start (suc x ∷ rest) =
    if bytes_eq (x ∷ front rest) key then some (front (behind rest)) else find_value key in_key rest
find_value key in_value (zero ∷ rest) = find_value key start rest
find_value key in_value (suc x ∷ rest) = find_value key in_value rest
find_value key in_key (zero ∷ rest) = find_value key in_value rest
find_value key in_key (suc x ∷ rest) = find_value key in_key rest

find_value_value :
    (key v rest : List ℕ) → find_value key in_value (marked v rest) ≡ find_value key start rest
unfolding find_value marked
find_value_value key [] rest = refl
find_value_value key (x ∷ v) rest = find_value_value key v rest

find_value_key :
    (key k rest : List ℕ) → find_value key in_key (marked k rest) ≡ find_value key in_value rest
unfolding find_value marked
find_value_key key [] rest = refl
find_value_key key (x ∷ k) rest = find_value_key key k rest

find_value_hit : (k v rest : List ℕ) → find_value k start (marked k (marked v rest)) ≡ some v
unfolding find_value marked
find_value_hit [] v rest = rw (bytes_eq_refl [], find_value) (ap some (front-marked v rest))
find_value_hit (x ∷ k) v rest =
    rw (front-marked k (marked v rest), behind-marked k (marked v rest), bytes_eq_refl (x ∷ k))
      (ap some (front-marked v rest))

find_value_miss :
    (key k v rest : List ℕ)
    → bytes_eq k key ≡ false
    → find_value key start (marked k (marked v rest)) ≡ find_value key start rest
unfolding find_value marked
find_value_miss key [] v rest h = rw h (find_value_value key v rest)
find_value_miss key (x ∷ k) v rest h =
    rw (front-marked k (marked v rest), h)
      (find_value_key key k (marked v rest) ∙ find_value_value key v rest)

items_of : List ℕ → List ℕ
items_of [] = []
items_of (zero ∷ items) = items
items_of (suc n ∷ rest) = []

pub get_item : List ℕ → String → Option (List ℕ)
get_item d k = find_value (codes k) start (items_of d)

pub set_item : List ℕ → String → List ℕ → List ℕ
set_item d k v = 0 ∷ marked (codes k) (marked v (items_of d))

unfoldable pub node_type : List ℕ → PlistType
node_type [] = plist_dict
node_type (zero ∷ items) = plist_dict
node_type (suc n ∷ rest) = plist_string

pub string_val : List ℕ → Option (List ℕ)
string_val [] = none
string_val (n ∷ rest) = some rest

unfoldable pub from_xml : List ℕ → Option (List ℕ)
from_xml [] = none
from_xml (b ∷ rest) = if b == 60 then some rest else none

abbrev pub paper_host : Host
paper_host = record calm_host {
  plist_new_dict = 0 ∷ [];
  plist_new_string = λ s. 1 ∷ s;
  plist_dict_set_item = set_item;
  plist_dict_get_item = get_item;
  plist_get_node_type = node_type;
  plist_get_string_val = string_val;
  plist_to_xml = λ p. some (60 ∷ p);
  plist_from_xml = from_xml;
}

-- A platform that lets the program write.
abbrev pub open_platform : Platform paper_host
open_platform = record {
  base_config_dir = some (codes "C:");
  mkdir = λ d q. made;
  remove_file_spec = λ q. [];
  same_file = bytes_eq;
  same_file_refl = bytes_eq_refl;
  removes = λ d q. true;
  opens_for_write = λ d q. true;
  remove_errno = λ d q. 2;
  time = λ d. 7;
  rand = λ seed n. seed + n;
  plist_from_bin = λ bs. none;
  plist_dict_remove_item = λ p k. p;
}

set_item-same : (d v : List ℕ) (k : String) → get_item (set_item d k v) k ≡ some v
unfolding get_item set_item items_of
set_item-same d v k = find_value_hit (codes k) v (items_of d)

set_item-other : (d v : List ℕ) (k l : String) → l ≢ k → get_item (set_item d k v) l ≡ get_item d l
unfolding get_item set_item items_of
set_item-other d v k l ne = elim (Bool-cases (bytes_eq (codes k) (codes l))) [
  | inl same ↦ absurd (ne (codes-injective l k (sym (bytes_eq→≡ (codes k) (codes l) same))))
  | inr miss ↦ find_value_miss (codes l) (codes k) v (items_of d) miss
]

string_val_present :
    (p : List ℕ) → node_type p ≡ plist_string → (s : List ℕ) × (string_val p ≡ some s)
unfolding node_type string_val
string_val_present [] e = cc
string_val_present (n ∷ rest) e = (rest, refl)

pub paper_host-Libplist : Libplist paper_host open_platform
unfolding from_xml node_type string_val get_item items_of find_value
paper_host-Libplist = record {
  xml = λ p. (p, refl, refl);
  get_set = λ d v k _. set_item-same d v k;
  get_set_other = λ d v k l ne _. set_item-other d v k l ne;
  get_remove_other = λ d k l ne _. refl;
  remove_dict = λ d k h. h;
  new_dict = refl;
  get_new = λ k. refl;
  string_type = λ s. refl;
  string_new = λ s. refl;
  string_val = string_val_present;
}

-- No directory makes the file of the configuration the local one.
local_apart :
    (dir : List ℕ) → bytes_eq (dir ++ (dir_sep ∷ config_file_name)) local_config_file ≡ false
local_apart dir =
    elim (Bool-cases (bytes_eq (dir ++ (dir_sep ∷ config_file_name)) local_config_file)) [
      | inr other ↦ other
      | inl same ↦ absurd (differ (sym (bytes_eq→≡ _ local_config_file same)))
    ]
  where
    differ : local_config_file ≢ dir ++ (dir_sep ∷ config_file_name)
    differ same =
        distinct (ap (drop 5) same ∙ drop-append_length 5 dir (dir_sep ∷ config_file_name) five)
      where
        five : 5 ≡ length dir
        five = omega (arith, ap length same, length-append dir (dir_sep ∷ config_file_name))

        distinct : drop 5 local_config_file ≢ dir_sep ∷ config_file_name
        distinct e =
            unfold bytes_eq in
            subst (λ b. if b then Unit else ⊥) (ap (bytes_eq (drop 5 local_config_file)) e) tt

pub open_platform-Writable : Writable paper_host open_platform
open_platform-Writable = record {
  base = codes "C:";
  base_known = refl;
  mkdir_works = λ d q. inl refl;
  opens = λ d q. refl;
  local_apart = local_apart;
}
