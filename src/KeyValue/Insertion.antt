-- ===== src/KeyValue/Insertion.antt =====
-- The in-place sort of pkg/sort/key_value.go, read as the insertion of one pair after the other
-- into the part that is sorted. `done` is that part backwards, so that the pair which `sift` looks
-- at next stands at its head.
use advinced_cache.Prelude.{
  ℕ, suc, ◌+◌, ◌-◌, ◌≡◌, refl, List, [], ◌∷◌, reverse_aux, arith, length, if◌then◌else◌, Bool-cases,
  inl, inr,
}
use advinced_cache.KeyValue.{Pair, less, swap_at, less_at, sift, kv_rounds, kv_slice}

unfoldable pub insert_back : Pair → List Pair → List Pair
insert_back x [] = x ∷ []
insert_back x (y ∷ done) =
    let rest = insert_back x done in if less x.key y.key then y ∷ rest else x ∷ y ∷ done

unfoldable pub insert_all : List Pair → List Pair → List Pair
insert_all [] done = done
insert_all (x ∷ kv) done = insert_all kv (insert_back x done)

swap_at-reverse_aux :
    (done : List Pair) (k i : ℕ) (kv : List Pair)
    → i ≡ length done + k
    → swap_at i (reverse_aux done kv) ≡ reverse_aux done (swap_at k kv)
unfolding swap_at
swap_at-reverse_aux [] k i kv e = let e' : i ≡ k = omega arith in rw e'
swap_at-reverse_aux (y ∷ done) k i kv e = swap_at-reverse_aux done (suc k) i (y ∷ kv) (omega arith)

less_at-reverse_aux :
    (done : List Pair) (k i : ℕ) (kv : List Pair)
    → i ≡ length done + k
    → less_at i (reverse_aux done kv) ≡ less_at k kv
unfolding less_at
less_at-reverse_aux [] k i kv e = let e' : i ≡ k = omega arith in rw e'
less_at-reverse_aux (y ∷ done) k i kv e = less_at-reverse_aux done (suc k) i (y ∷ kv) (omega arith)

-- The inner loop puts the pair at `length done` in its place among those before it.
pub sift-insert_back :
    (done : List Pair) (x : Pair) (kv : List Pair)
    → sift (length done) (reverse_aux done (x ∷ kv)) ≡ reverse_aux (insert_back x done) kv
unfolding sift insert_back
sift-insert_back [] x kv = refl
sift-insert_back (y ∷ done) x kv =
    rw (less_at-reverse_aux done 0 (length done) (y ∷ x ∷ kv) (omega arith)) (
      rw (swap_at-reverse_aux done 0 (length done) (y ∷ x ∷ kv) (omega arith)) (
        unfold less_at swap_at in
        rw (sift-insert_back done x (y ∷ kv))
          (elim (Bool-cases (less x.key y.key)) [ inl e ↦ rw e | inr e ↦ rw e ])))

length-insert_back : (x : Pair) (done : List Pair) → length (insert_back x done) ≡ suc (length done)
unfolding insert_back
length-insert_back x [] = refl
length-insert_back x (y ∷ done) = ground (arith, length-insert_back x done)

kv_rounds-insert_all :
    (kv done : List Pair)
    → kv_rounds (length kv) (length done) (reverse_aux done kv)
      ≡ reverse_aux (insert_all kv done) []
unfolding kv_rounds insert_all
kv_rounds-insert_all [] done = refl
kv_rounds-insert_all (x ∷ kv) done =
    rw (sift-insert_back done x kv, ← length-insert_back x done, kv_rounds)
      (kv_rounds-insert_all kv (insert_back x done))

-- The two nested loops insert the pairs one after the other.
pub kv_slice-insert_all : (kv : List Pair) → kv_slice kv ≡ reverse_aux (insert_all kv []) []
unfolding kv_slice insert_all kv_rounds insert_back
kv_slice-insert_all [] = refl
kv_slice-insert_all (x ∷ kv) =
    let e : suc (length kv) - 1 ≡ length kv = omega arith in rw e (kv_rounds-insert_all kv (x ∷ []))
