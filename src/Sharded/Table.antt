-- ===== src/Sharded/Table.antt =====
-- A Go map with `uint64` keys, as the shards of pkg/storage/map/shard.go use it.
use advinced_cache.Prelude.{
  ℕ, ◌≡◌, refl, false, Option, none, some, List, [], ◌∷◌, arith, ◌==◌, Bool-cases, inl, inr, ==_iff,
  if◌then◌else◌,
}

module _ {V : Type 0} where
  unfoldable pub find : ℕ → List (ℕ × V) → Option V
  find k [] = none
  find k ((j, v) ∷ m) = if j == k then some v else find k m

  unfoldable pub put : ℕ → V → List (ℕ × V) → List (ℕ × V)
  put k v [] = (k, v) ∷ []
  put k v ((j, w) ∷ m) = if j == k then (k, v) ∷ m else (j, w) ∷ put k v m

  unfoldable pub delete : ℕ → List (ℕ × V) → List (ℕ × V)
  delete k [] = []
  delete k ((j, v) ∷ m) = if j == k then delete k m else (j, v) ∷ delete k m

  pub find-put :
      (k j : ℕ) (v : V) (m : List (ℕ × V))
      → find j (put k v m) ≡ (if k == j then some v else find j m)
  unfolding find put
  find-put k j v [] = refl
  find-put k j v ((i, w) ∷ m) = ground (arith, find-put k j v m)

  pub find-delete :
      (k j : ℕ) (m : List (ℕ × V)) → find j (delete k m) ≡ (if k == j then none else find j m)
  unfolding find delete
  find-delete k j [] = ground arith
  find-delete k j ((i, w) ∷ m) = ground (arith, find-delete k j m)

  -- No key twice.
  abbrev pub Distinct : List (ℕ × V) → Type 0
  Distinct [] = Unit
  Distinct ((k, v) ∷ m) = (find k m ≡ none) × Distinct m

  pub put-Distinct : (k : ℕ) (v : V) (m : List (ℕ × V)) → Distinct m → Distinct (put k v m)
  unfolding find put
  put-Distinct k v [] d = (refl, tt)
  put-Distinct k v ((i, w) ∷ m) d = elim (Bool-cases (i == k)) [
    | inl e ↦ let e' : i ≡ k = (==_iff i k).0 e in rw e (rw e' at d)
    | inr e ↦
        let apart : (k == i) ≡ false = ground arith in
        rw e (rw (find-put k i v m, apart, d.0), put-Distinct k v m d.1)
  ]

  pub delete-Distinct : (k : ℕ) (m : List (ℕ × V)) → Distinct m → Distinct (delete k m)
  unfolding find delete
  delete-Distinct k [] d = tt
  delete-Distinct k ((i, w) ∷ m) d = elim (Bool-cases (i == k)) [
    | inl e ↦ rw e (delete-Distinct k m d.1)
    | inr e ↦
        let apart : (k == i) ≡ false = ground arith in
        rw e (rw (find-delete k i m, apart, d.0), delete-Distinct k m d.1)
  ]

  pub delete_absent : (k : ℕ) (m : List (ℕ × V)) → find k m ≡ none → delete k m ≡ m
  unfolding find delete
  delete_absent k [] h = refl
  delete_absent k ((i, w) ∷ m) h = ground (arith, delete_absent k m)
