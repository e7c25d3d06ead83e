-- ===== src/Ring/Sort.antt =====
-- `Sort` of pkg/list/doubly_linked.go: a merge sort that opens the ring, relinks its elements and
-- closes it again. While it runs, a pointer may be nil, so the links are kept as options; a read of
-- a field of nil, which no run makes, ends the loop where it stands. Recursion and loops run on fuel.
pub mod Lists
pub mod Ordered
pub mod Splits
pub mod Merges
pub mod Sorts
pub mod Closing
use advinced_cache.Prelude.{
  ℕ, zero, suc, Bool, true, false, not, Option, none, some, List, [], ◌∷◌, ltb, if◌then◌else◌,
}
use advinced_cache.Prelude.Word.{le_i64}
use advinced_cache.Ring.{Ring, assign}

-- `Order`.
pub data Order : Type 0 where
  desc : Order
  asc : Order

-- `less`, on weights.
unfoldable pub precedes : Order → ℕ → ℕ → Bool
precedes asc a b = le_i64 a b
precedes desc a b = not (le_i64 a b)

-- The links of the elements.
pub record Chains : Type 0 where
  pub next : ℕ → Option ℕ
  pub prev : ℕ → Option ℕ

abbrev pub set_next : ℕ → Option ℕ → Chains → Chains
set_next p v c = record c { next = assign p v c.next }

abbrev pub set_prev : ℕ → Option ℕ → Chains → Chains
set_prev p v c = record c { prev = assign p v c.prev }

-- `fast != nil && fast.next != nil && fast.next.next != nil`, with the last of these.
unfoldable pub two_on : Chains → ℕ → Option ℕ
two_on c fast = elim (c.next fast) [ none ↦ none | some f ↦ c.next f ]

-- The loop of `splitHalf`: where `slow` ends.
unfoldable pub find_half : ℕ → Chains → ℕ → ℕ → ℕ
find_half zero c slow fast = slow
find_half (suc n) c slow fast = elim (two_on c fast) [
  | none ↦ slow
  | some f ↦ elim (c.next slow) [ none ↦ slow | some s ↦ find_half n c s f ]
]

unfoldable pub split_half : ℕ → ℕ → Chains → Chains × Option ℕ
split_half n head c =
    let slow = find_half n c head head in
    let mid = c.next slow in
    let c = set_next slow none c in (elim mid [ none ↦ c | some m ↦ set_prev m none c ], mid)

-- `tail.next = p; p.prev = tail`.
unfoldable pub join : ℕ → ℕ → Chains → Chains
join tail p c = set_prev p (some tail) (set_next tail (some p) c)

-- `for rest != nil`, behind `tail`.
unfoldable pub append_rest : ℕ → ℕ → Option ℕ → Chains → Chains
append_rest zero tail rest c = c
append_rest (suc n) tail rest c = elim rest [
  | none ↦ c
  | some r ↦ let c = join tail r c in append_rest n r (c.next r) c
]

-- `rest := a; if b != nil { rest = b }`.
abbrev pub rest_of : Option ℕ → Option ℕ → Option ℕ
rest_of a none = a
rest_of a (some b) = some b

module _ (weight : ℕ → ℕ) (ord : Order) where
  -- The loop `for a != nil && b != nil` and what follows it, once `tail` is set.
  unfoldable pub merge_behind : ℕ → ℕ → Option ℕ → Option ℕ → Chains → Chains
  merge_behind zero tail a b c = c
  merge_behind (suc n) tail none b c = append_rest (suc n) tail (rest_of none b) c
  merge_behind (suc n) tail (some x) none c = append_rest (suc n) tail (some x) c
  merge_behind (suc n) tail (some x) (some y) c = elim (precedes ord (weight x) (weight y)) [
    | true ↦ merge_behind n x (c.next x) (some y) (join tail x c)
    | false ↦ merge_behind n y (some x) (c.next y) (join tail y c)
  ]

  -- `mergeByWeight` of two chains that are not empty: the first round sets `head`.
  unfoldable pub merge_by_weight : ℕ → Option ℕ → Option ℕ → Chains → Chains × Option ℕ
  merge_by_weight n (some x) (some y) c =
      if precedes ord (weight x) (weight y)
      then (merge_behind n x (c.next x) (some y) c, some x)
      else (merge_behind n y (some x) (c.next y) c, some y)
  merge_by_weight n a b c = (c, none)

  unfoldable pub merge_sort : ℕ → Option ℕ → Chains → Chains × Option ℕ
  unfolding split_half merge_by_weight
  merge_sort zero head c = (c, head)
  merge_sort (suc n) none c = (c, none)
  merge_sort (suc n) (some x) c = elim (c.next x) [
    | none ↦ (c, some x)
    | some y ↦
        let (c, mid) = split_half (suc n) x c in
        let (c, left) = merge_sort n mid c in
        let (c, right) = merge_sort n (some x) c in merge_by_weight n left right c
  ]

-- `for curr.next != nil { curr.next.prev = curr; curr = curr.next }`, `curr.next = l.root` and
-- `l.root.prev = curr`.
unfoldable pub close : ℕ → ℕ → Chains → Chains
close zero curr c = set_prev 0 (some curr) (set_next curr (some 0) c)
close (suc n) curr c = elim (c.next curr) [
  | none ↦ set_prev 0 (some curr) (set_next curr (some 0) c)
  | some p ↦ close n p (set_prev p (some curr) c)
]

-- The links with pointers that may be nil, and back.
abbrev pub opened : {V : Type 0} → Ring V → Chains
opened l = record { next = λ a. some (l.next a); prev = λ a. some (l.prev a) }

abbrev pub address : Option ℕ → ℕ
address none = 0
address (some a) = a

unfoldable pub sort : {V : Type 0} → (ℕ → ℕ) → Order → Ring V → Ring V
unfolding merge_sort close
sort weight ord l =
    if ltb l.len 2
    then l
    else let head = l.next 0 in
      let c = set_prev head none (set_next (l.prev 0) none (opened l)) in
      let (c, sorted) = merge_sort weight ord l.len (some head) c in
      let c = set_next 0 sorted c in
      let c = close l.len (address sorted) (set_prev (address sorted) (some 0) c) in
      record l { next = λ a. address (c.next a); prev = λ a. address (c.prev a) }
