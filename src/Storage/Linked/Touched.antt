-- ===== src/Storage/Linked/Touched.antt =====
-- `touch` and `update` of pkg/storage/lru/storage.go, which move an element of a list.
use mathlib.Core.Path.{subst}
use advinced_cache.Prelude.{
  ℕ, ◌≡◌, refl, ap, sym, ◌∙◌, not, ◌||◌, some, List, ◌∷◌, ◌++◌, inl, inr, ◌==◌, ltb, Bool-cases,
  arith,
}
use advinced_cache.Entry.{Entry, swap_payloads, touch_updated_at}
use advinced_cache.Sharded.{get}
use advinced_cache.Ring.{Ring, detach, insert_after, move_to_front}
use advinced_cache.Ring.Links.{IsRing}
use advinced_cache.Ring.Moves.{move_to_front-IsRing}
use advinced_cache.Storage.{Storage, write, touch, update}
use advinced_cache.Storage.Linked.{In, In-split, In-mid, In-others, In-more, IsLinked, write_both}

value-move_to_front : (e : ℕ) (l : Ring ℕ) → (move_to_front e l).value ≡ l.value
unfolding move_to_front detach insert_after
value-move_to_front e l = elim (Bool-cases (not (l.owned e) || ltb l.len 2)) [
  | inl q ↦ rw (q, move_to_front) refl
  | inr q ↦ rw (q, move_to_front) refl
]

-- The list of one shard relinked with the same elements.
pub relink :
    (i : ℕ) (ring : Ring ℕ) (list : List ℕ) (s : Storage) (lists : ℕ → List ℕ)
    → IsLinked s lists
    → IsRing ring list
    → ring.value ≡ (s.rings i).value
    → ((x : ℕ) → In x list → In x (lists i))
    → ((x : ℕ) → In x (lists i) → In x list)
    → IsLinked (record s { rings = write i ring s.rings }) (write i list lists)
relink i ring list s lists h r same from to = record {
  size = h.size;
  rings = λ j. write_both IsRing i j ring list s.rings lists (λ q. r) (λ q. h.rings j);
  listed = λ key p found.
      (let l = h.listed key p found in
        let home = (s.entries p).shard in
        let moved =
          write_both (λ g xs. In l.element xs × (g.value l.element ≡ some p)) i home ring list
            s.rings lists
            (λ q. (
              to l.element (subst (λ k. In l.element (lists k)) q l.inside),
              ap (λ f. f l.element) same
                  ∙ subst (λ k. (s.rings k).value l.element ≡ some p) q l.value,
            ))
            (λ q. (l.inside, l.value)) in
        record {
          own_key = l.own_key;
          element = l.element;
          pointer = l.pointer;
          inside = moved.0;
          value = moved.1;
        });
  held = λ j el m.
      (let k =
          write_both
            (λ g xs.
              In el xs
              → (p : ℕ) × (g.value el ≡ some p)
                × (get s.sharded_map (s.entries p).key ≡ some p)
                × ((s.entries p).shard ≡ j)
                × ((s.entries p).lru_list_elem ≡ some el))
            i j ring list s.rings lists
            (λ q m.
              let k = h.held i el (from el m) in
              (k.entry, ap (λ f. f el) same ∙ k.value, k.found, k.home ∙ sym q, k.pointer))
            (λ q m. let k = h.held j el m in (k.entry, k.value, k.found, k.home, k.pointer)) m in
        record { entry = k.0; value = k.1; found = k.2; home = k.3; pointer = k.4 });
}

touch_moves :
    (p el : ℕ) (s : Storage)
    → (s.entries p).lru_list_elem ≡ some el
    → touch p s ≡ record s {
      rings = write (s.entries p).shard (move_to_front el (s.rings (s.entries p).shard)) s.rings;
    }
unfolding touch
touch_moves p el s e = rw (e, touch) refl

pub touch-IsLinked :
    (key p : ℕ) (s : Storage) (lists : ℕ → List ℕ)
    → IsLinked s lists
    → get s.sharded_map key ≡ some p
    → (lists' : ℕ → List ℕ) × IsLinked (touch p s) lists'
touch-IsLinked key p s lists h found =
    let l = h.listed key p found in
    let el = l.element in
    let i = (s.entries p).shard in
    let (ys, zs, q) = In-split el (lists i) l.inside in
    let ring = subst (IsRing (s.rings i)) q (h.rings i) in
    let next = write i (el ∷ ys ++ zs) lists in
    (
      next,
      subst (λ s'. IsLinked s' next) (sym (touch_moves p el s l.pointer))
          (relink i (move_to_front el (s.rings i)) (el ∷ ys ++ zs) s lists h
            (move_to_front-IsRing (s.rings i) ys zs el ring) (value-move_to_front el (s.rings i))
            (λ x m. subst (In x) (sym q) (elim m [
              | inl e ↦ subst (λ z. In z (ys ++ el ∷ zs)) (sym e) (In-mid el ys zs)
              | inr m ↦ In-more x el ys zs m
            ]))
            (λ x m. elim (Bool-cases (x == el)) [
              | inl e ↦ inl (ground arith)
              | inr e ↦ inr (In-others x el ys zs (ground arith) (subst (In x) q m))
            ])),
    )

-- What the links say of an entry.
abbrev pub Same : Entry → Entry → Type 0
Same e f = (e.key ≡ f.key) × (e.shard ≡ f.shard) × (e.lru_list_elem ≡ f.lru_list_elem)

Same-trans : (e f g : Entry) → Same e f → Same f g → Same e g
Same-trans e f g a b = (a.0 ∙ b.0, a.1 ∙ b.1, a.2 ∙ b.2)

pub write-Same : (p a : ℕ) (e : Entry) (f : ℕ → Entry) → Same e (f p) → Same (write p e f a) (f a)
write-Same p a e f h = elim (Bool-cases (a == p)) [
  | inl q ↦ let q' : p ≡ a = ground arith in rw q (subst (λ z. Same e (f z)) q' h)
  | inr q ↦ rw q (refl, refl, refl)
]

-- Entries rewritten with the same key, shard and element.
pub rewrite-IsLinked :
    (entries : ℕ → Entry) (s : Storage) (lists : ℕ → List ℕ)
    → ((a : ℕ) → Same (entries a) (s.entries a))
    → IsLinked s lists
    → IsLinked (record s { entries = entries }) lists
rewrite-IsLinked entries s lists same h = record {
  size = h.size;
  rings = h.rings;
  listed = λ key p found.
      (let l = h.listed key p found in
        let home = sym (same p).1 in
        record {
          own_key = (same p).0 ∙ l.own_key;
          element = l.element;
          pointer = (same p).2 ∙ l.pointer;
          inside = subst (λ i. In l.element (lists i)) home l.inside;
          value = subst (λ i. (s.rings i).value l.element ≡ some p) home l.value;
        });
  held = λ i el m.
      (let k = h.held i el m in
        record {
          entry = k.entry;
          value = k.value;
          found = ap (get s.sharded_map) (same k.entry).0 ∙ k.found;
          home = (same k.entry).1 ∙ k.home;
          pointer = (same k.entry).2 ∙ k.pointer;
        });
}

-- The entries after `update`.
abbrev swapped : ℕ → ℕ → Storage → ℕ → Entry
swapped old new s =
    write new (swap_payloads (s.entries old) (s.entries new)).1
      (write old (swap_payloads (s.entries old) (s.entries new)).0 s.entries)

swapped-Same : (old new a : ℕ) (s : Storage) → Same (swapped old new s a) (s.entries a)
unfolding swap_payloads
swapped-Same old new a s =
    let first : (b : ℕ)
        → Same (write old (swap_payloads (s.entries old) (s.entries new)).0 s.entries b)
            (s.entries b) =
      λ b.
        write-Same old b (swap_payloads (s.entries old) (s.entries new)).0 s.entries
          (refl, refl, refl) in
    let e = (swap_payloads (s.entries old) (s.entries new)).1 in
    let f = write old (swap_payloads (s.entries old) (s.entries new)).0 s.entries in
    let back = first new in
    Same-trans (write new e f a) (f a) (s.entries a)
      (write-Same new a e f (sym back.0, sym back.1, sym back.2)) (first a)

pub update-IsLinked :
    (now old new key : ℕ) (s : Storage) (lists : ℕ → List ℕ)
    → IsLinked s lists
    → get s.sharded_map key ≡ some old
    → (lists' : ℕ → List ℕ) × IsLinked (update now old new s) lists'
unfolding update touch_updated_at
update-IsLinked now old new key s lists h found =
    let f = swapped old new s in
    let g = write old (touch_updated_at now (f old)) f in
    touch-IsLinked key old (record s { entries = g }) lists
      (rewrite-IsLinked g s lists
        (λ a.
          Same-trans (g a) (f a) (s.entries a)
            (write-Same old a (touch_updated_at now (f old)) f (refl, refl, refl))
            (swapped-Same old new a s))
        h)
      found
