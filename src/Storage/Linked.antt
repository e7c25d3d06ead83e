-- ===== src/Storage/Linked.antt =====
-- How the map and the LRU lists of pkg/storage/lru/storage.go and balancer.go hang together: the
-- pointers of entries to the elements of the lists, and of the elements to entries.
pub mod Touched
pub mod Removed
pub mod Inserted
pub mod Runs
use mathlib.Core.Path.{subst}
use advinced_cache.Prelude.{
  ℕ, ◌≡◌, ◌≢◌, refl, ap, sym, ◌∙◌, true, false, some, none, List, [], ◌∷◌, ◌++◌, length, ◌⊎◌, inl,
  inr, ◌==◌, arith, Bool-cases, if◌then◌else◌,
}
use advinced_cache.Entry.{num_of_shards}
use advinced_cache.Sharded.{get}
use advinced_cache.Ring.{Ring}
use advinced_cache.Ring.Links.{Avoids, IsRing}
use advinced_cache.Storage.{Storage, write}

abbrev pub In : ℕ → List ℕ → Type 0
In e [] = ⊥
In e (x ∷ xs) = (e ≡ x) ⊎ In e xs

pub In-split : (e : ℕ) (xs : List ℕ) → In e xs → (ys : List ℕ) × (zs : List ℕ) × (xs ≡ ys ++ e ∷ zs)
In-split e [] m = elim m [ ]
In-split e (x ∷ xs) (inl q) = ([], xs, ap (λ z. z ∷ xs) (sym q))
In-split e (x ∷ xs) (inr m) = let (ys, zs, q) = In-split e xs m in (x ∷ ys, zs, ap (◌∷◌ x) q)

pub In-mid : (e : ℕ) (ys zs : List ℕ) → In e (ys ++ e ∷ zs)
In-mid e [] zs = inl refl
In-mid e (y ∷ ys) zs = inr (In-mid e ys zs)

-- Beside the element in the middle are the others.
pub In-others : (x e : ℕ) (ys zs : List ℕ) → x ≢ e → In x (ys ++ e ∷ zs) → In x (ys ++ zs)
In-others x e [] zs h (inl q) = absurd (h q)
In-others x e [] zs h (inr m) = m
In-others x e (y ∷ ys) zs h (inl q) = inl q
In-others x e (y ∷ ys) zs h (inr m) = inr (In-others x e ys zs h m)

pub In-more : (x e : ℕ) (ys zs : List ℕ) → In x (ys ++ zs) → In x (ys ++ e ∷ zs)
In-more x e [] zs m = inr m
In-more x e (y ∷ ys) zs (inl q) = inl q
In-more x e (y ∷ ys) zs (inr m) = inr (In-more x e ys zs m)

pub Avoids-In : (a x : ℕ) (xs : List ℕ) → Avoids a xs → In x xs → a ≢ x
Avoids-In a x [] h m = elim m [ ]
Avoids-In a x (y ∷ xs) h (inl q) = λ e. h.0 (e ∙ q)
Avoids-In a x (y ∷ xs) h (inr m) = Avoids-In a x xs h.1 m

-- The stored entry `p` has its element in the list of its shard.
pub record IsListed (s : Storage) (lists : ℕ → List ℕ) (key p : ℕ) : Type 0 where
  pub own_key : (s.entries p).key ≡ key
  pub element : ℕ
  pub pointer : (s.entries p).lru_list_elem ≡ some element
  pub inside : In element (lists (s.entries p).shard)
  pub value : (s.rings (s.entries p).shard).value element ≡ some p

-- The element `el` of shard `i` holds a stored entry.
pub record IsHeld (s : Storage) (i el : ℕ) : Type 0 where
  pub entry : ℕ
  pub value : (s.rings i).value el ≡ some entry
  pub found : get s.sharded_map (s.entries entry).key ≡ some entry
  pub home : (s.entries entry).shard ≡ i
  pub pointer : (s.entries entry).lru_list_elem ≡ some el

-- The lists hold `lists`, and they hold what the map holds.
pub record IsLinked (s : Storage) (lists : ℕ → List ℕ) : Type 0 where
  pub size : length s.sharded_map.shards ≡ num_of_shards
  pub rings : (i : ℕ) → IsRing (s.rings i) (lists i)
  pub listed : (key p : ℕ) → get s.sharded_map key ≡ some p → IsListed s lists key p
  pub held : (i el : ℕ) → In el (lists i) → IsHeld s i el

-- Two functions written at the same place.
pub write_both :
    {A B : Type 0} (P : A → B → Type 0) (i j : ℕ) (a : A) (b : B) (f : ℕ → A) (g : ℕ → B)
    → (j ≡ i → P a b)
    → (j ≢ i → P (f j) (g j))
    → P (write i a f j) (write i b g j)
write_both P i j a b f g here there = elim (Bool-cases (j == i)) [
  | inl e ↦ rw e (here (ground arith))
  | inr e ↦ rw e (there (ground arith))
]
