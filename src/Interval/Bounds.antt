-- ===== src/Interval/Bounds.antt =====
-- Where the schedule puts a task: the first block that its interval and boundary allow.
use native.Mathlib.Nat.{div-add-mod, mod-lt, mul-le-mul_right, lt_of_mul-lt-mul_right}
use cw_croncat.Base.{
  ap, sym, ◌∙◌, ℕ, ◌+◌, ◌-◌, ◌*◌, ◌/◌, ◌%◌, ◌≤◌, ◌<◌, ◌≡◌, ◌↔◌, max, true, false, ltb→lt, tests,
  Option, none, some, arith, ltb, if◌then◌else◌, inl, inr, Bool-cases,
}
use cw_croncat.Base.Outcome.{ok, u64_mod}
use cw_croncat.Types.{SlotType, Boundary, BoundarySpec, height, time}
use cw_croncat.State.{Env}
use cw_croncat.Interval.{
  get_next_block_limited, get_next_block_by_offset, limited_start, offset_start,
}

-- The height of a start, 0 without one.
abbrev pub start_height : Option BoundarySpec → ℕ
start_height none = 0
start_height (some (height id)) = id
start_height (some (time _)) = 0

-- The first height that a start allows after the current one.
abbrev pub first_height : Env → Boundary → ℕ
first_height env b = max (env.block_height + 1) (start_height b.start)

limited_start-first :
    (h : ℕ) (o : Option BoundarySpec) → limited_start h o + 1 ≡ max (h + 1) (start_height o)
unfolding limited_start
limited_start-first h none = omega arith
limited_start-first h (some (height id)) = ground arith
limited_start-first h (some (time _)) = omega arith

-- Without an end, and where that height fits a word, `Once` and `Immediate` are scheduled at the
-- first height after the current one that the start allows.
pub limited_unbounded :
    (env : Env) (b : Boundary)
    → b.end ≡ none
    → first_height env b < u64_mod
    → get_next_block_limited env b ≡ ok (first_height env b, SlotType.block)
unfolding get_next_block_limited
limited_unbounded env b e fits = ground (arith, limited_start-first env.block_height b.start)

-- With an end height, a current height above 0, and a first height allowed that fits a word, `Once`
-- and `Immediate` are scheduled without a panic: at 0, which ends the
-- task, exactly when the end has passed; else not before the current height and at most one height
-- past the end, and after the current height when the start does not lie past that.
pub limited_until :
    (env : Env) (b : Boundary) (id : ℕ)
    → b.end ≡ some (height id)
    → 0 < env.block_height
    → first_height env b < u64_mod
    → (n : ℕ) × (get_next_block_limited env b ≡ ok (n, SlotType.block))
      × ((n ≡ 0) ↔ (id < env.block_height))
      × (env.block_height ≤ id → (env.block_height ≤ n) × (n ≤ id + 1))
      × (env.block_height ≤ id → first_height env b ≤ id + 1 → n ≡ first_height env b)
unfolding get_next_block_limited
limited_until env b id e pos fits = (
  (if ltb id env.block_height
      then 0
      else if ltb (id + 1) (first_height env b)
      then id
      else first_height env b),
  ground (arith, limited_start-first env.block_height b.start),
  ground arith,
  ground arith,
  ground arith,
)

-- The multiple of `block` at or below a height, as the code computes it.
floor_multiple : (a block : ℕ) → a - a % block ≡ a / block * block
floor_multiple a block = omega (arith, div-add-mod a block)

-- The least multiple of `block` at or above a height, as the code computes it from a start ahead.
abbrev pub IsNextMultiple : (block from n : ℕ) → Type 0
IsNextMultiple block from n = (q : ℕ) × (n ≡ q * block) × (from ≤ n) × (n < from + block)

not_past : (block from q p : ℕ) → from ≤ q * block → p * block < from + block → p ≤ q
not_past block from q p low high =
    let far : p * block < (q + 1) * block = grind arith in
    let less : p < q + 1 = lt_of_mul-lt-mul_right block far in omega arith

pub IsNextMultiple-unique :
    (block from n m : ℕ) → IsNextMultiple block from n → IsNextMultiple block from m → n ≡ m
IsNextMultiple-unique block from n m (q, e, low, high) (p, f, low', high') =
    let same : q ≡ p = omega (
      arith,
      not_past block from q p (omega arith) (omega arith),
      not_past block from p q (omega arith) (omega arith),
    ) in
    e ∙ ap (λ k. k * block) same ∙ sym f

IsNextMultiple-after :
    (block a : ℕ) → 0 < block → IsNextMultiple block (a + 1) (a - a % block + block)
IsNextMultiple-after block a pos = (
  a / block + 1,
  omega (arith, floor_multiple a block),
  omega (arith, mod-lt a pos),
  omega (arith, div-add-mod a block),
)

abbrev multiple_from : ℕ → ℕ → ℕ
multiple_from block a = if ltb 0 (a % block) then a - a % block + block else a

IsNextMultiple-from : (block a : ℕ) → 0 < block → IsNextMultiple block a (multiple_from block a)
IsNextMultiple-from block a pos = elim (Bool-cases (ltb 0 (a % block))) [
  | inl e ↦ rw e (
    a / block + 1,
    omega (arith, floor_multiple a block),
    omega (arith, mod-lt a pos),
    omega (tests, ltb→lt 0 (a % block) e, div-add-mod a block),
  )
  | inr e ↦ rw e (a / block, ground (arith, floor_multiple a block), omega arith, omega arith)
]

-- Where `Block(n)` goes when no end is in the way.
abbrev pub offset_first : Env → Boundary → ℕ → ℕ
offset_first env b block =
    if ltb env.block_height (start_height b.start)
    then multiple_from block (start_height b.start)
    else env.block_height - env.block_height % block + block

offset_first-IsNextMultiple :
    (env : Env) (b : Boundary) (block : ℕ)
    → 0 < block
    → IsNextMultiple block (first_height env b) (offset_first env b block)
offset_first-IsNextMultiple env b block pos =
    elim (Bool-cases (ltb env.block_height (start_height b.start))) [
      | inl e ↦ rw (e, max_ahead) (IsNextMultiple-from block (start_height b.start) pos)
      | inr e ↦ rw (e, max_here) (IsNextMultiple-after block env.block_height pos)
    ]
  where
    max_ahead : (h s : ℕ) → ltb h s ≡ true → max (h + 1) s ≡ s
    max_ahead h s e = ground arith

    max_here : (h s : ℕ) → ltb h s ≡ false → max (h + 1) s ≡ h + 1
    max_here h s e = ground arith

-- Without an end, for n above 0, and where the first height allowed plus n fits a word, `Block(n)` is
-- scheduled at the least multiple of n that comes after the current
-- height and is not before the start.
pub offset_unbounded :
    (env : Env) (b : Boundary) (block : ℕ)
    → b.end ≡ none
    → 0 < block
    → first_height env b + block < u64_mod
    → (n : ℕ) × (get_next_block_by_offset env b block ≡ ok (n, SlotType.block))
      × IsNextMultiple block (first_height env b) n
unfolding get_next_block_by_offset offset_start
offset_unbounded env b block e pos fits =
    (offset_first env b block, ground arith, offset_first-IsNextMultiple env b block pos)

-- Multiples of `block` compare as their quotients do.
quotient-lt : (block p q : ℕ) → p * block < q * block → p < q
quotient-lt block p q h = grind arith

floor_multiple-greatest :
    (block a q : ℕ) → 0 < block → q * block ≤ a → q * block ≤ a / block * block
floor_multiple-greatest block a q pos h =
    let below : q < a / block + 1 =
      quotient-lt block q (a / block + 1) (omega (arith, div-add-mod a block, mod-lt a pos)) in
    grind arith

code_floor :
    (block id : ℕ) → (if ltb 0 (id % block) then id - id % block else id) ≡ id / block * block
code_floor block id = ground (arith, floor_multiple id block)

offset_first-le-floor :
    (env : Env) (b : Boundary) (block id : ℕ)
    → 0 < block
    → offset_first env b block ≤ id
    → offset_first env b block ≤ id / block * block
offset_first-le-floor env b block id pos h =
    let (q, e, _, _) = offset_first-IsNextMultiple env b block pos in
    omega (arith, e, floor_multiple-greatest block id q pos (omega (arith, e)))

floor-le-height :
    (env : Env) (b : Boundary) (block id : ℕ)
    → 0 < block
    → start_height b.start ≤ env.block_height
    → id < offset_first env b block
    → id / block * block ≤ env.block_height
floor-le-height env b block id pos late h = omega (arith, below, div-add-mod env.block_height block)
  where
    first : offset_first env b block ≡ (env.block_height / block + 1) * block
    first = ground (arith, floor_multiple env.block_height block)

    quotient : id / block < env.block_height / block + 1
    quotient =
        quotient-lt block (id / block) (env.block_height / block + 1)
          (omega (arith, first, div-add-mod id block))

    below : id / block * block ≤ env.block_height / block * block
    below = mul-le-mul_right block (omega (arith, quotient))

-- With an end height, for n above 0, and where the first height allowed plus n fits a word, `Block(n)`
-- is scheduled without a panic: at 0 when the end has passed; at the
-- multiple that comes next when it does not lie past the end; else at the last multiple up to the
-- end, which is not after the current height unless the start lies ahead.
pub offset_until :
    (env : Env) (b : Boundary) (block id : ℕ)
    → b.end ≡ some (height id)
    → 0 < block
    → first_height env b + block < u64_mod
    → (n : ℕ) × (get_next_block_by_offset env b block ≡ ok (n, SlotType.block))
      × (id < env.block_height → n ≡ 0)
      × (env.block_height ≤ id → offset_first env b block ≤ id → n ≡ offset_first env b block)
      × (env.block_height ≤ id → id < offset_first env b block → n ≡ id / block * block)
      × (start_height b.start ≤ env.block_height
          → env.block_height ≤ id
          → id < offset_first env b block
          → n ≤ env.block_height)
unfolding get_next_block_by_offset offset_start
offset_until env b block id e pos fits = (
  (if ltb id env.block_height
      then 0
      else if ltb (id / block * block) (offset_first env b block)
      then id / block * block
      else offset_first env b block),
  ground (arith, code_floor block id),
  ground arith,
  ground (arith, offset_first-le-floor env b block id pos),
  ground (arith, div-add-mod id block),
  ground (arith, div-add-mod id block, floor-le-height env b block id pos),
)
