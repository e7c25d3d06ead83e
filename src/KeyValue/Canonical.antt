-- ===== src/KeyValue/Canonical.antt =====
-- The form to which `KVSlice` of pkg/sort/key_value.go brings a slice, as far as a cache key reads it.
use mathlib.Core.Path.{ap₂}
use mathlib.Core.List.{reverse_aux-reverse_aux-nil}
use advinced_cache.Prelude.{
  ◌≡◌, ◌↔◌, refl, ap, ◌∙◌, sym, false, List, [], ◌∷◌, reverse_aux, arith, keep, bytes_eq,
  bytes_eq_refl, eq_of_bytes_eq, Bool-cases, inl, inr,
}
use advinced_cache.KeyValue.{Bytes, Pair, less, kv_slice}
use advinced_cache.KeyValue.Order.{less-lex, lex_irrefl}
use advinced_cache.KeyValue.Insertion.{insert_back, insert_all, kv_slice-insert_all}
use advinced_cache.KeyValue.Sorted.{IsAbove, IsSorted, less_tri, kv_slice-IsSorted}

-- The pairs of one key, in order.
abbrev pub with_key : Bytes → List Pair → List Pair
with_key k = keep (λ p. bytes_eq p.key k)

less_irrefl : (a : Bytes) → less a a ≡ false
less_irrefl a = less-lex a a ∙ lex_irrefl a

with_key-reverse_aux :
    (k : Bytes) (a b : List Pair)
    → with_key k (reverse_aux a b) ≡ reverse_aux (with_key k a) (with_key k b)
with_key-reverse_aux k [] b = refl
with_key-reverse_aux k (x ∷ a) b = elim (Bool-cases (bytes_eq x.key k)) [
  | inl e ↦ rw (with_key-reverse_aux k a (x ∷ b)) (rw (e, keep))
  | inr e ↦ rw (with_key-reverse_aux k a (x ∷ b)) (rw (e, keep))
]

with_key-insert_back :
    (k : Bytes) (x : Pair) (done : List Pair)
    → with_key k (insert_back x done) ≡ with_key k (x ∷ done)
unfolding insert_back
with_key-insert_back k x [] = refl
with_key-insert_back k x (y ∷ done) = ground (
  arith,
  with_key-insert_back k x done,
  less_irrefl k,
  eq_of_bytes_eq x.key k,
  eq_of_bytes_eq y.key k,
)

with_key-insert_all :
    (k : Bytes) (kv done : List Pair)
    → with_key k (insert_all kv done) ≡ reverse_aux (with_key k kv) (with_key k done)
unfolding insert_all
with_key-insert_all k [] done = refl
with_key-insert_all k (x ∷ kv) done = rw (with_key-insert_all k kv (insert_back x done)) (
    rw (with_key-insert_back k x done)
      (elim (Bool-cases (bytes_eq x.key k)) [ inl e ↦ rw (e, keep) | inr e ↦ rw (e, keep) ]))

-- The sort is stable: of each key it keeps the pairs, in their order.
pub with_key-kv_slice : (k : Bytes) (kv : List Pair) → with_key k (kv_slice kv) ≡ with_key k kv
with_key-kv_slice k kv = rw (kv_slice-insert_all kv) (
    rw (with_key-reverse_aux k (insert_all kv []) [])
      (rw (with_key-insert_all k kv []) (reverse_aux-reverse_aux-nil (with_key k kv) [])))

less-of_with_key :
    (k b : Bytes) (l r : List Pair) (p : Pair)
    → with_key k l ≡ p ∷ r
    → IsAbove b l
    → less k b ≡ false
less-of_with_key k b [] r p e s = cc
less-of_with_key k b (y ∷ l) r p e s = elim (Bool-cases (bytes_eq y.key k)) [
  | inl f ↦ rw (← eq_of_bytes_eq y.key k f) s.0
  | inr f ↦ less-of_with_key k b l r p (rw (f, keep) at e) s.1
]

with_key-cons : (p : Pair) (s : List Pair) → with_key p.key (p ∷ s) ≡ p ∷ with_key p.key s
with_key-cons p s = rw (bytes_eq_refl p.key, keep)

head_le :
    (p q : Pair) (s t : List Pair)
    → IsAbove q.key t
    → with_key p.key (p ∷ s) ≡ with_key p.key (q ∷ t)
    → less p.key q.key ≡ false
head_le p q s t above e =
    less-of_with_key p.key q.key (q ∷ t) (with_key p.key s) p (sym e ∙ with_key-cons p s)
      (less_irrefl q.key, above)

with_key-tail :
    (k : Bytes) (p q : Pair) (s t : List Pair)
    → p ≡ q
    → with_key k (p ∷ s) ≡ with_key k (q ∷ t)
    → with_key k s ≡ with_key k t
with_key-tail k p q s t e h = elim (Bool-cases (bytes_eq q.key k)) [
  | inl f ↦ cc (rw (e, f, keep) at h)
  | inr f ↦ rw (e, f, keep) at h
]

head_eq :
    (p q : Pair) (s t : List Pair)
    → p.key ≡ q.key
    → with_key p.key (p ∷ s) ≡ with_key p.key (q ∷ t)
    → p ≡ q
head_eq p q s t e h =
    let right : with_key p.key (q ∷ t) ≡ q ∷ with_key q.key t = rw e (with_key-cons q t) in
    cc (h, right, with_key-cons p s)

IsSorted-unique :
    (s t : List Pair)
    → IsSorted s
    → IsSorted t
    → ((k : Bytes) → with_key k s ≡ with_key k t)
    → s ≡ t
IsSorted-unique [] [] hs ht h = refl
IsSorted-unique [] (q ∷ t) hs ht h = cc (h q.key, with_key-cons q t)
IsSorted-unique (p ∷ s) [] hs ht h = cc (h p.key, with_key-cons p s)
IsSorted-unique (p ∷ s) (q ∷ t) hs ht h =
    let keys : p.key ≡ q.key =
      less_tri p.key q.key (head_le p q s t ht.0 (h p.key))
        (head_le q p t s hs.0 (sym (h q.key))) in
    let heads : p ≡ q = head_eq p q s t keys (h p.key) in
    ap₂ ◌∷◌ heads (IsSorted-unique s t hs.1 ht.1 (λ k. with_key-tail k p q s t heads (h k)))

-- Two slices sort to the same slice exactly when each key has the same pairs in the same order in
-- both: the order between different keys is what the sort forgets, and all that it forgets.
pub kv_slice_canonical :
    (a b : List Pair) → (kv_slice a ≡ kv_slice b) ↔ ((k : Bytes) → with_key k a ≡ with_key k b)
kv_slice_canonical a b = (
  λ e k. sym (with_key-kv_slice k a) ∙ ap (with_key k) e ∙ with_key-kv_slice k b,
  λ h.
      IsSorted-unique (kv_slice a) (kv_slice b) (kv_slice-IsSorted a) (kv_slice-IsSorted b)
        λ k. with_key-kv_slice k a ∙ h k ∙ sym (with_key-kv_slice k b),
)
