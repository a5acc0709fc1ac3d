-- ===== src/Tests/World.antt =====
-- Maps as association lists, with the cron crate and the hash replaced by simple functions: an
-- instance of `External` to run the handlers on.
use cw_croncat.Base.{
  ℕ, ◌+◌, ◌<◌, String, ◌≡◌, refl, inl, inr, true, false, Option, none, some, List, [], ◌∷◌, ◌==◌,
  eqb, ltb, ltb→lt, eq_iff, arith, if◌then◌else◌, Bool-cases, ◌/◌,
}
use cw_croncat.External.{External, Ascending, mem_key}

abbrev insert_key : ℕ → List ℕ → List ℕ
insert_key k [] = k ∷ []
insert_key k (j ∷ js) =
    if ltb k j then k ∷ j ∷ js else if eqb k j then j ∷ js else j ∷ insert_key k js

insert_below :
    (k j : ℕ) (js : List ℕ) → j < k → Ascending (j ∷ js) → Ascending (j ∷ insert_key k js)
insert_below k j [] h a = ground arith
insert_below k j (i ∷ is) h a = elim (Bool-cases (ltb k i)) [
  | inl e ↦ rw e (h, (ltb→lt k i e, a.1))
  | inr e ↦ elim (Bool-cases (eqb k i)) [
    | inl f ↦ rw e (rw f a)
    | inr f ↦ rw e (rw f (a.0, insert_below k i is (ground arith) a.1))
  ]
]

insert_key-Ascending : (k : ℕ) (js : List ℕ) → Ascending js → Ascending (insert_key k js)
insert_key-Ascending k [] a = tt
insert_key-Ascending k (j ∷ js) a = elim (Bool-cases (ltb k j)) [
  | inl e ↦ rw e (ltb→lt k j e, a)
  | inr e ↦ elim (Bool-cases (eqb k j)) [
    | inl f ↦ rw e (rw f a)
    | inr f ↦ rw e (rw f (insert_below k j js (ground arith) a))
  ]
]

mem_key-insert_key :
    (i k : ℕ) (js : List ℕ) → mem_key i (insert_key k js) ≡ (if eqb k i then true else mem_key i js)
mem_key-insert_key i k [] = refl
mem_key-insert_key i k (j ∷ js) = ground (arith, mem_key-insert_key i k js)

module _ {V : Type 0} where
  abbrev load_text : List (String × V) → String → Option V
  load_text [] j = none
  load_text ((k, v) ∷ m) j = if k == j then some v else load_text m j

  abbrev remove_text : List (String × V) → String → List (String × V)
  remove_text [] j = []
  remove_text ((k, v) ∷ m) j = if k == j then remove_text m j else (k, v) ∷ remove_text m j

  pub load_text-remove_text :
      (m : List (String × V)) (k j : String)
      → load_text (remove_text m k) j ≡ (if k == j then none else load_text m j)
  load_text-remove_text [] k j = ground arith
  load_text-remove_text ((i, v) ∷ m) k j =
      ground (arith, load_text-remove_text m k j, eq_iff i k, eq_iff k j, eq_iff i j)

  abbrev load_slot : List (ℕ × V) → ℕ → Option V
  load_slot [] j = none
  load_slot ((k, v) ∷ m) j = if eqb k j then some v else load_slot m j

  abbrev remove_number : List (ℕ × V) → ℕ → List (ℕ × V)
  remove_number [] j = []
  remove_number ((k, v) ∷ m) j = if eqb k j then remove_number m j else (k, v) ∷ remove_number m j

  pub load_slot-remove_number :
      (m : List (ℕ × V)) (k j : ℕ)
      → load_slot (remove_number m k) j ≡ (if eqb k j then none else load_slot m j)
  load_slot-remove_number [] k j = ground arith
  load_slot-remove_number ((i, v) ∷ m) k j = ground (arith, load_slot-remove_number m k j)

  abbrev keys : List (ℕ × V) → List ℕ
  keys [] = []
  keys ((k, v) ∷ m) = insert_key k (keys m)

  pub keys-Ascending : (m : List (ℕ × V)) → Ascending (keys m)
  keys-Ascending [] = tt
  keys-Ascending ((k, v) ∷ m) = insert_key-Ascending k (keys m) (keys-Ascending m)

  pub mem_key-keys :
      (m : List (ℕ × V)) (k : ℕ)
      → mem_key k (keys m) ≡ elim (load_slot m k) [ none ↦ false | some _ ↦ true ]
  mem_key-keys [] k = refl
  mem_key-keys ((j, v) ∷ m) k = ground (arith, mem_key-insert_key k j (keys m), mem_key-keys m k)

abbrev later : ℕ → ℕ → Option ℕ
later n t = some (t + n + 1)

abbrev even_schedule : String → Option ℕ
even_schedule c = if c == "" then none else some 59999999999

-- A task's hash is its owner.
abbrev pub world : External
world = record {
  TextMap = λ V. List (String × V);
  may_load = load_text;
  save = λ m k v. (k, v) ∷ m;
  remove = remove_text;
  range = λ m. m;
  may_load-save = λ m k j v. refl;
  may_load-remove = load_text-remove_text;
  SlotMap = λ V. List (ℕ × V);
  may_load_slot = load_slot;
  save_slot = λ m k v. (k, v) ∷ m;
  remove_slot = remove_number;
  slot_keys = keys;
  may_load_slot-save_slot = λ m k j v. refl;
  may_load_slot-remove_slot = load_slot-remove_number;
  slot_keys-Ascending = keys-Ascending;
  mem_key-slot_keys = mem_key-keys;
  empty_map = [];
  empty_slots = [];
  may_load-empty_map = λ k. refl;
  may_load_slot-empty_slots = λ k. refl;
  debug_message = λ owner i b actions rules. owner;
  sha256_hex = λ message. message;
  Schedule = ℕ;
  from_str = even_schedule;
  next_after = later;
  seconds = λ t. t / 1000000000;
  has_coins = λ funds c. true;
  addr_validate = λ a. if a == "" then false else true;
  transfer_binary = λ recipient amount. inr [];
}
