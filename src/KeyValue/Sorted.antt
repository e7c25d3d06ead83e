-- ===== src/KeyValue/Sorted.antt =====
-- The result of `KVSlice` of pkg/sort/key_value.go.
use mathlib.Core.List.Perm
use mathlib.Core.List.{Perm, perm_middle, reverse_perm, append-nil}
use advinced_cache.Prelude.{
  ◌≡◌, true, false, List, [], ◌∷◌, ◌++◌, reverse_aux, arith, Bool-cases, inl, inr,
}
use advinced_cache.KeyValue.{Bytes, Pair, less, kv_slice}
use advinced_cache.KeyValue.Order.{less-lex, lex_irrefl, lex_trans, lex_tri}
use advinced_cache.KeyValue.Insertion.{insert_back, insert_all, kv_slice-insert_all}

-- No key of the list is below `k`.
abbrev pub IsAbove : Bytes → List Pair → Type 0
IsAbove k [] = Unit
IsAbove k (p ∷ kv) = (less p.key k ≡ false) × IsAbove k kv

abbrev pub IsSorted : List Pair → Type 0
IsSorted [] = Unit
IsSorted (p ∷ kv) = IsAbove p.key kv × IsSorted kv

-- The same two, for a list that runs backwards.
abbrev IsBelow : Bytes → List Pair → Type 0
IsBelow k [] = Unit
IsBelow k (p ∷ kv) = (less k p.key ≡ false) × IsBelow k kv

abbrev IsReversed : List Pair → Type 0
IsReversed [] = Unit
IsReversed (p ∷ kv) = IsBelow p.key kv × IsReversed kv

abbrev Between : List Pair → List Pair → Type 0
Between [] kv = Unit
Between (p ∷ done) kv = IsAbove p.key kv × Between done kv

Between-cons :
    (y : Pair) (done kv : List Pair) → IsBelow y.key done → Between done kv → Between done (y ∷ kv)
Between-cons y [] kv h b = tt
Between-cons y (p ∷ done) kv h b = ((h.0, b.0), Between-cons y done kv h.1 b.1)

reverse_aux-IsSorted :
    (done kv : List Pair)
    → IsReversed done
    → IsSorted kv
    → Between done kv
    → IsSorted (reverse_aux done kv)
reverse_aux-IsSorted [] kv d s b = s
reverse_aux-IsSorted (y ∷ done) kv d s b =
    reverse_aux-IsSorted done (y ∷ kv) d.1 (b.0, s) (Between-cons y done kv d.0 b.1)

less_trans : (a b c : Bytes) → less a b ≡ true → less b c ≡ true → less a c ≡ true
less_trans a b c = rw (less-lex a b) (rw (less-lex b c) (rw (less-lex a c) (lex_trans a b c)))

less_asymm : (a b : Bytes) → less a b ≡ true → less b a ≡ false
less_asymm a b h = elim (Bool-cases (less b a)) [
  | inl e ↦ ground (arith, less_trans a b a h e, less-lex a a, lex_irrefl a)
  | inr e ↦ e
]

pub less_tri : (a b : Bytes) → less a b ≡ false → less b a ≡ false → a ≡ b
less_tri a b = rw (less-lex a b) (rw (less-lex b a) (lex_tri a b))

-- Not being below is transitive.
less_neg_trans : (a b c : Bytes) → less a b ≡ false → less b c ≡ false → less a c ≡ false
less_neg_trans a b c p q = elim (Bool-cases (less b a)) [
  | inl e ↦ elim (Bool-cases (less a c)) [
    | inl f ↦ ground (arith, less_trans b a c e f)
    | inr f ↦ f
  ]
  | inr e ↦ rw (less_tri a b p e) q
]

IsBelow-trans : (a b : Bytes) (kv : List Pair) → less a b ≡ false → IsBelow b kv → IsBelow a kv
IsBelow-trans a b [] h s = tt
IsBelow-trans a b (p ∷ kv) h s = (less_neg_trans a b p.key h s.0, IsBelow-trans a b kv h s.1)

IsBelow-insert_back :
    (k : Bytes) (x : Pair) (done : List Pair)
    → less k x.key ≡ false
    → IsBelow k done
    → IsBelow k (insert_back x done)
unfolding insert_back
IsBelow-insert_back k x [] h s = (h, tt)
IsBelow-insert_back k x (y ∷ done) h s = elim (Bool-cases (less x.key y.key)) [
  | inl e ↦ rw e (s.0, IsBelow-insert_back k x done h s.1)
  | inr e ↦ rw e (h, s)
]

insert_back-IsReversed :
    (x : Pair) (done : List Pair) → IsReversed done → IsReversed (insert_back x done)
unfolding insert_back
insert_back-IsReversed x [] s = (tt, tt)
insert_back-IsReversed x (y ∷ done) s = elim (Bool-cases (less x.key y.key)) [
  | inl e ↦ rw e (
    IsBelow-insert_back y.key x done (less_asymm x.key y.key e) s.0,
    insert_back-IsReversed x done s.1,
  )
  | inr e ↦ rw e ((e, IsBelow-trans x.key y.key done e s.0), s)
]

insert_all-IsReversed : (kv done : List Pair) → IsReversed done → IsReversed (insert_all kv done)
unfolding insert_all
insert_all-IsReversed [] done s = s
insert_all-IsReversed (x ∷ kv) done s =
    insert_all-IsReversed kv (insert_back x done) (insert_back-IsReversed x done s)

Between-nil : (done : List Pair) → Between done []
Between-nil [] = tt
Between-nil (y ∷ done) = (tt, Between-nil done)

-- The keys of the sorted slice ascend.
pub kv_slice-IsSorted : (kv : List Pair) → IsSorted (kv_slice kv)
kv_slice-IsSorted kv = rw (kv_slice-insert_all kv) (
    reverse_aux-IsSorted (insert_all kv []) [] (insert_all-IsReversed kv [] tt) tt
      (Between-nil (insert_all kv [])))

insert_back-perm : (x : Pair) (done : List Pair) → Perm (insert_back x done) (x ∷ done)
unfolding insert_back
insert_back-perm x [] = Perm.rfl
insert_back-perm x (y ∷ done) = elim (Bool-cases (less x.key y.key)) [
  | inl e ↦ rw e (Perm.trans (Perm.cons y (insert_back-perm x done)) (Perm.swap x y done))
  | inr e ↦ rw e Perm.rfl
]

insert_all-perm : (kv done : List Pair) → Perm (insert_all kv done) (kv ++ done)
unfolding insert_all
insert_all-perm [] done = Perm.rfl
insert_all-perm (x ∷ kv) done =
    Perm.trans (insert_all-perm kv (insert_back x done))
      (Perm.trans (Perm.append_left kv (insert_back-perm x done)) (perm_middle kv done))

-- The sorted slice holds the same pairs, each as often.
pub kv_slice-perm : (kv : List Pair) → Perm (kv_slice kv) kv
kv_slice-perm kv =
    rw (kv_slice-insert_all kv)
      (Perm.trans (reverse_perm (insert_all kv [])) (rw append-nil at (insert_all-perm kv [])))
