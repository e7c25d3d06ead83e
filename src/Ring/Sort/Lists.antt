-- ===== src/Ring/Sort/Lists.antt =====
-- The merge sort of pkg/list/doubly_linked.go on the sequence of elements.
use mathlib.Core.List.Perm
use mathlib.Core.List.{Perm, perm_middle}
use advinced_cache.Prelude.{
  ℕ, zero, suc, ◌+◌, ◌≤◌, ◌≡◌, ◌≢◌, refl, ap, sym, true, false, List, [], ◌∷◌, ◌++◌, append-nil,
  length, arith,
}
use advinced_cache.Ring.Links.{All, Avoids, Apart, All-parts}
use advinced_cache.Ring.Sort.{Order, precedes}

-- The two halves of `slow` and what follows it, while `fast` has a list ahead of it.
unfoldable pub cut_half : ℕ → List ℕ → List ℕ → List ℕ × List ℕ
cut_half slow (y ∷ ys) (a ∷ b ∷ r) = let rest = cut_half y ys r in (slow ∷ rest.0, rest.1)
cut_half slow ys (a ∷ []) = (slow ∷ [], ys)
cut_half slow ys [] = (slow ∷ [], ys)
cut_half slow [] (a ∷ b ∷ r) = (slow ∷ [], [])

pub append-cut_half : (s : ℕ) (ys r : List ℕ) → (cut_half s ys r).0 ++ (cut_half s ys r).1 ≡ s ∷ ys
unfolding cut_half
append-cut_half s [] [] = refl
append-cut_half s [] (a ∷ []) = refl
append-cut_half s [] (a ∷ b ∷ r) = refl
append-cut_half s (y ∷ ys) [] = refl
append-cut_half s (y ∷ ys) (a ∷ []) = refl
append-cut_half s (y ∷ ys) (a ∷ b ∷ r) = ap (◌∷◌ s) (append-cut_half y ys r)

-- The second half is not empty if a second element is there.
pub cut_half-more :
    (s y : ℕ) (ys r : List ℕ) → length r ≤ length ys + 1 → 1 ≤ length (cut_half s (y ∷ ys) r).1
unfolding cut_half
cut_half-more s y ys [] h = omega arith
cut_half-more s y ys (a ∷ []) h = omega arith
cut_half-more s y [] (a ∷ b ∷ r) h = omega arith
cut_half-more s y (z ∷ ys) (a ∷ b ∷ r) h = cut_half-more y z ys r (omega arith)

pub cut_half-first : (s : ℕ) (ys r : List ℕ) → 1 ≤ length (cut_half s ys r).0
unfolding cut_half
cut_half-first s [] [] = omega arith
cut_half-first s [] (a ∷ []) = omega arith
cut_half-first s [] (a ∷ b ∷ r) = omega arith
cut_half-first s (y ∷ ys) [] = omega arith
cut_half-first s (y ∷ ys) (a ∷ []) = omega arith
cut_half-first s (y ∷ ys) (a ∷ b ∷ r) = omega arith

-- No element twice between the two lists.
abbrev pub Disjoint : List ℕ → List ℕ → Type 0
Disjoint xs ys = All (λ x. Avoids x ys) xs

pub Apart-parts : (xs ys : List ℕ) → Apart (xs ++ ys) → Apart xs × Apart ys × Disjoint xs ys
Apart-parts [] ys h = (tt, h, tt)
Apart-parts (x ∷ xs) ys h =
    let both = All-parts (λ z. x ≢ z) xs ys h.0 in
    let rest = Apart-parts xs ys h.1 in ((both.0, rest.0), rest.1, (both.1, rest.2))

-- In front of what each element avoids comes one more.
avoid_first :
    (x : ℕ) (xs ys : List ℕ) → Avoids x ys → All (λ y. Avoids y xs) ys → Disjoint ys (x ∷ xs)
avoid_first x xs [] h d = tt
avoid_first x xs (y ∷ ys) h d = (((λ q. h.0 (sym q)), d.0), avoid_first x xs ys h.1 d.1)

none_avoided : (ys : List ℕ) → Disjoint ys []
none_avoided [] = tt
none_avoided (y ∷ ys) = (tt, none_avoided ys)

pub Disjoint-sym : (xs ys : List ℕ) → Disjoint xs ys → Disjoint ys xs
Disjoint-sym [] ys h = none_avoided ys
Disjoint-sym (x ∷ xs) ys h = avoid_first x xs ys h.0 (Disjoint-sym xs ys h.1)

module _ (weight : ℕ → ℕ) (ord : Order) where
  unfoldable pub merge_lists : List ℕ → List ℕ → List ℕ
  merge_lists [] ys = ys
  merge_lists (x ∷ xs) [] = x ∷ xs
  merge_lists (x ∷ xs) (y ∷ ys) = elim (precedes ord (weight x) (weight y)) [
    | true ↦ x ∷ merge_lists xs (y ∷ ys)
    | false ↦ y ∷ merge_lists (x ∷ xs) ys
  ]

  pub merge_lists_first :
      (x y : ℕ) (xs ys : List ℕ)
      → precedes ord (weight x) (weight y) ≡ true
      → merge_lists (x ∷ xs) (y ∷ ys) ≡ x ∷ merge_lists xs (y ∷ ys)
  unfolding merge_lists
  merge_lists_first x y xs ys e = rw (e, merge_lists) refl

  pub merge_lists_second :
      (x y : ℕ) (xs ys : List ℕ)
      → precedes ord (weight x) (weight y) ≡ false
      → merge_lists (x ∷ xs) (y ∷ ys) ≡ y ∷ merge_lists (x ∷ xs) ys
  unfolding merge_lists
  merge_lists_second x y xs ys e = rw (e, merge_lists) refl

  -- The merge sort, with the second half on the left of the merge.
  unfoldable pub sort_list : ℕ → List ℕ → List ℕ
  unfolding cut_half merge_lists
  sort_list zero xs = xs
  sort_list (suc n) [] = []
  sort_list (suc n) (x ∷ []) = x ∷ []
  sort_list (suc n) (x ∷ y ∷ xs) =
      let halves = cut_half x (y ∷ xs) (y ∷ xs) in
      merge_lists (sort_list n halves.1) (sort_list n halves.0)

  pub All-merge_lists :
      (P : ℕ → Type 0) (xs ys : List ℕ) → All P xs → All P ys → All P (merge_lists xs ys)
  unfolding merge_lists
  All-merge_lists P [] ys hx hy = hy
  All-merge_lists P (x ∷ xs) [] hx hy = hx
  All-merge_lists P (x ∷ xs) (y ∷ ys) hx hy =
      elim (precedes ord (weight x) (weight y))
        as (λ b.
          All P
            (elim b [ true ↦ x ∷ merge_lists xs (y ∷ ys) | false ↦ y ∷ merge_lists (x ∷ xs) ys ])) [
              | true ↦ (hx.0, All-merge_lists P xs (y ∷ ys) hx.1 hy)
              | false ↦ (hy.0, All-merge_lists P (x ∷ xs) ys hx hy.1)
            ]

  pub Apart-merge_lists :
      (xs ys : List ℕ) → Apart xs → Apart ys → Disjoint xs ys → Apart (merge_lists xs ys)
  unfolding merge_lists
  Apart-merge_lists [] ys ax ay d = ay
  Apart-merge_lists (x ∷ xs) [] ax ay d = ax
  Apart-merge_lists (x ∷ xs) (y ∷ ys) ax ay d =
      let e = Disjoint-sym (x ∷ xs) (y ∷ ys) d in
      elim (precedes ord (weight x) (weight y))
        as (λ b.
          Apart
            (elim b [ true ↦ x ∷ merge_lists xs (y ∷ ys) | false ↦ y ∷ merge_lists (x ∷ xs) ys ])) [
              | true ↦ (
                All-merge_lists (λ z. x ≢ z) xs (y ∷ ys) ax.0 d.0,
                Apart-merge_lists xs (y ∷ ys) ax.1 ay d.1,
              )
              | false ↦ (
                All-merge_lists (λ z. y ≢ z) (x ∷ xs) ys e.0 ay.0,
                Apart-merge_lists (x ∷ xs) ys ax ay.1 (Disjoint-sym ys (x ∷ xs) e.1),
              )
            ]

  pub merge_lists-perm : (xs ys : List ℕ) → Perm (merge_lists xs ys) (xs ++ ys)
  unfolding merge_lists
  merge_lists-perm [] ys = Perm.rfl
  merge_lists-perm (x ∷ xs) [] = rw (append-nil (x ∷ xs)) Perm.rfl
  merge_lists-perm (x ∷ xs) (y ∷ ys) =
      elim (precedes ord (weight x) (weight y))
        as (λ b.
          Perm (elim b [ true ↦ x ∷ merge_lists xs (y ∷ ys) | false ↦ y ∷ merge_lists (x ∷ xs) ys ])
            (x ∷ xs ++ y ∷ ys)) [
              | true ↦ Perm.cons x (merge_lists-perm xs (y ∷ ys))
              | false ↦
                  Perm.trans (Perm.cons y (merge_lists-perm (x ∷ xs) ys))
                    (Perm.symm (perm_middle (x ∷ xs) ys))
            ]

  pub length-merge_lists : (xs ys : List ℕ) → length (merge_lists xs ys) ≡ length xs + length ys
  unfolding merge_lists
  length-merge_lists [] ys = omega arith
  length-merge_lists (x ∷ xs) [] = omega arith
  length-merge_lists (x ∷ xs) (y ∷ ys) =
      elim (precedes ord (weight x) (weight y))
        as (λ b.
          length
            (elim b [ true ↦ x ∷ merge_lists xs (y ∷ ys) | false ↦ y ∷ merge_lists (x ∷ xs) ys ])
          ≡ length (x ∷ xs) + length (y ∷ ys)) [
            | true ↦ omega (arith, length-merge_lists xs (y ∷ ys))
            | false ↦ omega (arith, length-merge_lists (x ∷ xs) ys)
          ]
