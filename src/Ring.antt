-- ===== src/Ring.antt =====
-- pkg/list/doubly_linked.go: the doubly linked list over a store of elements. Elements are addresses,
-- the root is address 0, and `fresh` is the address that `newElement` yields next: nothing in the
-- repository gives elements back to the pool. `owned` tells whether `e.list` is this list. The mutex
-- makes every operation one undisturbed step.
pub mod Links
pub mod Ends
pub mod Laws
pub mod Moves
pub mod Sort
use advinced_cache.Prelude.{
  ℕ, zero, suc, ◌+◌, ◌-◌, ◌<◌, ◌≡◌, Bool, true, false, not, ◌||◌, Option, none, some, List, [], ◌∷◌,
  ltb, leb, ◌==◌, if◌then◌else◌,
}

pub record Ring (V : Type 0) : Type 0 where
  pub next : ℕ → ℕ
  pub prev : ℕ → ℕ
  pub value : ℕ → Option V
  pub owned : ℕ → Bool
  pub len : ℕ
  pub fresh : ℕ

-- `p.field = v`.
abbrev pub assign : {A : Type 0} → ℕ → A → (ℕ → A) → ℕ → A
assign p v f a = if a == p then v else f a

abbrev pub new_ring : {V : Type 0} → Ring V
new_ring = record {
  next = λ a. 0;
  prev = λ a. 0;
  value = λ a. none;
  owned = λ a. false;
  len = 0;
  fresh = 1;
}

module _ {V : Type 0} where
  -- `l.newElement()` with `e.value = v` and `e.list = l`.
  unfoldable pub new_element : V → Ring V → Ring V
  new_element v l = record l {
    value = assign l.fresh (some v) l.value;
    owned = assign l.fresh true l.owned;
    fresh = l.fresh + 1;
  }

  -- `e.prev = at; e.next = at.next; at.next.prev = e; at.next = e`.
  unfoldable pub insert_after : ℕ → ℕ → Ring V → Ring V
  insert_after e at l =
      let l = record l { prev = assign e at l.prev } in
      let l = record l { next = assign e (l.next at) l.next } in
      let l = record l { prev = assign (l.next at) e l.prev } in
      record l { next = assign at e l.next }

  unfoldable pub push_front : V → Ring V → Ring V × ℕ
  unfolding new_element insert_after
  push_front v l =
      let e = l.fresh in
      let l = insert_after e 0 (new_element v l) in (record l { len = l.len + 1 }, e)

  unfoldable pub push_back : V → Ring V → Ring V × ℕ
  unfolding new_element
  push_back v l =
      let e = l.fresh in
      let l = new_element v l in
      let at = l.prev 0 in
      let l = record l { prev = assign e at l.prev } in
      let l = record l { next = assign e 0 l.next } in
      let l = record l { next = assign at e l.next } in
      let l = record l { prev = assign 0 e l.prev } in (record l { len = l.len + 1 }, e)

  unfoldable pub back : Ring V → Option ℕ
  back l = if l.len == 0 then none else some (l.prev 0)

  -- `e.prev.next = e.next; e.next.prev = e.prev`.
  unfoldable pub detach : ℕ → Ring V → Ring V
  detach e l =
      let l = record l { next = assign (l.prev e) (l.next e) l.next } in
      record l { prev = assign (l.next e) (l.prev e) l.prev }

  -- The length stops at 0 here, where Go's would become negative; a linked list that has an element
  -- is not empty.
  unfoldable pub remove : ℕ → Ring V → Ring V
  unfolding detach
  remove e l = if not (l.owned e) then l else let l = detach e l in record l { len = l.len - 1 }

  unfoldable pub move_to_front : ℕ → Ring V → Ring V
  unfolding detach insert_after
  move_to_front e l = if not (l.owned e) || ltb l.len 2 then l else insert_after e 0 (detach e l)

  -- The loop of `Next`.
  unfoldable pub walk : ℕ → ℕ → Ring V → ℕ
  walk zero e l = e
  walk (suc n) e l = walk n (l.next e) l

  -- `Next(offset)`, for an offset that is not negative.
  unfoldable pub next_at : ℕ → Ring V → Option ℕ
  unfolding walk
  next_at offset l = if leb l.len offset then none else some (walk offset (l.next 0) l)
