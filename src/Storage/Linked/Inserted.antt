-- ===== src/Storage/Linked/Inserted.antt =====
-- `Get` and `Set` of pkg/storage/lru/storage.go on linked maps and lists.
use mathlib.Core.Path.{subst, subst⁻¹}
use advinced_cache.Prelude.{
  ℕ, ◌≡◌, ◌≢◌, ◌<◌, refl, ap, sym, ◌∙◌, false, some, none, List, [], ◌∷◌, length, length-set, inl,
  inr, ◌==◌, Bool-cases, arith, ==_refl, if◌then◌else◌,
}
use advinced_cache.Entry.{Entry}
use advinced_cache.Sharded.{Map, get, set_map}
use advinced_cache.Sharded.Placed.{get-set_map}
use advinced_cache.Ring.{Ring, new_element, insert_after, push_front}
use advinced_cache.Ring.Links.{All, IsRing, assign_self, assign_other}
use advinced_cache.Ring.Laws.{push_front-IsRing}
use advinced_cache.Storage.{Storage, write, weight_at, push, insert}
use advinced_cache.Storage.Linked.{In, IsListed, IsHeld, IsLinked, write_both}

In-All : (P : ℕ → Type 0) (x : ℕ) (xs : List ℕ) → All P xs → In x xs → P x
In-All P x [] h m = elim m [ ]
In-All P x (y ∷ xs) h (inl q) = subst⁻¹ P q h.0
In-All P x (y ∷ xs) h (inr m) = In-All P x xs h.1 m

size-set_map :
    (weight : ℕ → ℕ) (key p : ℕ) (m : Map ℕ)
    → length (set_map weight key p m).shards ≡ length m.shards
unfolding set_map
size-set_map weight key p m = length-set m.shards _ _

write_self : {A : Type 0} (p : ℕ) (v : A) (f : ℕ → A) → write p v f p ≡ v
write_self p v f = rw (==_refl p) refl

pub write_other : {A : Type 0} (p a : ℕ) (v : A) (f : ℕ → A) → p ≢ a → write p v f a ≡ f a
write_other p a v f h = let e : (a == p) ≡ false = ground arith in rw e refl

module _ (p : ℕ) (s : Storage) (lists : ℕ → List ℕ) (h : IsLinked s lists)
    (free : get s.sharded_map (s.entries p).key ≡ none) where
  abbrev key : ℕ
  key = (s.entries p).key

  abbrev home : ℕ
  home = (s.entries p).shard

  abbrev fresh : ℕ
  fresh = (s.rings home).fresh

  abbrev pub extended : ℕ → List ℕ
  extended = write home (fresh ∷ lists home) lists

  -- The entry with its element.
  abbrev fitted : Entry
  fitted = record (s.entries p) { lru_list_elem = some fresh }

  abbrev ring : Ring ℕ
  ring = (push_front p (s.rings home)).0

  unmapped : (k q : ℕ) → get s.sharded_map k ≡ some q → p ≢ q
  unmapped k q e r =
      let own = (h.listed k q e).own_key in
      let here : get s.sharded_map key ≡ some q =
        subst⁻¹ (λ z. get s.sharded_map z ≡ some q) (ap (λ z. (s.entries z).key) r ∙ own) e in
      let no : none ≡ some q = sym free ∙ here in absurd (ground arith)

  found_after :
      (k : ℕ)
      → get (set_map (weight_at s) key p s.sharded_map) k
        ≡ (if key == k then some p else get s.sharded_map k)
  found_after k = get-set_map (weight_at s) key k p s.sharded_map h.size

  IsListed-new : (k q : ℕ) → some p ≡ some q → key ≡ k → IsListed (insert p s) extended k q
  unfolding insert push push_front new_element insert_after
  IsListed-new k q e r =
      let q' : p ≡ q = ground arith in
      subst (λ z. IsListed (insert p s) extended k z) q'
        (let me = write_self p fitted s.entries in
          let shard = ap (λ e. e.shard) me in
          record {
            own_key = ap (λ e. e.key) me ∙ r;
            element = fresh;
            pointer = ap (λ e. e.lru_list_elem) me;
            inside =
                subst⁻¹ (λ i. In fresh (extended i)) shard
                  (subst⁻¹ (In fresh) (write_self home (fresh ∷ lists home) lists) (inl refl));
            value =
                subst⁻¹ (λ i. ((insert p s).rings i).value fresh ≡ some p) shard
                  (subst⁻¹ (λ g. g.value fresh ≡ some p) (write_self home ring s.rings)
                    (assign_self fresh (some p) (s.rings home).value));
          })

  old_value : (x : ℕ) → In x (lists home) → ring.value x ≡ (s.rings home).value x
  unfolding push_front new_element insert_after
  old_value x m =
      let below : x < fresh = In-All (λ y. y < fresh) x (lists home) (h.rings home).given m in
      assign_other fresh x (some p) (s.rings home).value (omega arith)

  IsListed-old : (k q : ℕ) → get s.sharded_map k ≡ some q → IsListed (insert p s) extended k q
  unfolding insert push push_front
  IsListed-old k q e =
      let l = h.listed k q e in
      let same = write_other p q fitted s.entries (unmapped k q e) in
      let moved =
        write_both (λ g xs. In l.element xs × (g.value l.element ≡ some q)) home (s.entries q).shard
          ring (fresh ∷ lists home) s.rings lists
          (λ r.
            let m = subst (λ i. In l.element (lists i)) r l.inside in
            (
              inr m,
              old_value l.element m ∙ subst (λ i. (s.rings i).value l.element ≡ some q) r l.value,
            ))
          (λ _. (l.inside, l.value)) in
      let shard = ap (λ e. e.shard) same in
      record {
        own_key = ap (λ e. e.key) same ∙ l.own_key;
        element = l.element;
        pointer = ap (λ e. e.lru_list_elem) same ∙ l.pointer;
        inside = subst⁻¹ (λ i. In l.element (extended i)) shard moved.0;
        value = subst⁻¹ (λ i. ((insert p s).rings i).value l.element ≡ some q) shard moved.1;
      }

  -- What `IsHeld` says after the insertion, of a ring.
  abbrev HoldsIn : ℕ → ℕ → Ring ℕ → Type 0
  HoldsIn j x g =
      (q : ℕ) × (g.value x ≡ some q)
      × (get (set_map (weight_at s) key p s.sharded_map) (write p fitted s.entries q).key ≡ some q)
      × ((write p fitted s.entries q).shard ≡ j)
      × ((write p fitted s.entries q).lru_list_elem ≡ some x)

  new_held : HoldsIn home fresh ring
  unfolding push_front new_element insert_after
  new_held =
      let me = write_self p fitted s.entries in
      (
        p,
        assign_self fresh (some p) (s.rings home).value,
        subst⁻¹ (λ e. get (set_map (weight_at s) key p s.sharded_map) e.key ≡ some p) me
            (found_after key ∙ rw (==_refl key) refl),
        ap (λ e. e.shard) me,
        ap (λ e. e.lru_list_elem) me,
      )

  old_held : (j x : ℕ) → IsHeld s j x → HoldsIn j x (s.rings j)
  old_held j x k =
      let q = k.entry in
      let same = write_other p q fitted s.entries (unmapped (s.entries q).key q k.found) in
      let other : (key == (s.entries q).key) ≡ false =
        elim (Bool-cases (key == (s.entries q).key)) [
          | inl e ↦
              let e' : key ≡ (s.entries q).key = ground arith in
              let no : none ≡ some q = sym free ∙ ap (get s.sharded_map) e' ∙ k.found in
              absurd (ground arith)
          | inr e ↦ e
        ] in
      (
        q,
        k.value,
        subst⁻¹ (λ e. get (set_map (weight_at s) key p s.sharded_map) e.key ≡ some q) same
            (found_after (s.entries q).key ∙ rw other k.found),
        ap (λ e. e.shard) same ∙ k.home,
        ap (λ e. e.lru_list_elem) same ∙ k.pointer,
      )

  pub insert-IsLinked : IsLinked (insert p s) extended
  unfolding insert push push_front
  insert-IsLinked = record {
    size = size-set_map (weight_at s) key p s.sharded_map ∙ h.size;
    rings = λ j.
        write_both IsRing home j ring (fresh ∷ lists home) s.rings lists
          (λ _. (push_front-IsRing p (s.rings home) (lists home) (h.rings home)).0)
          (λ _. h.rings j);
    listed = λ k q e. elim (Bool-cases (key == k)) [
      | inl r ↦ IsListed-new k q (sym (found_after k ∙ rw r refl) ∙ e) (ground arith)
      | inr r ↦ IsListed-old k q (sym (found_after k ∙ rw r refl) ∙ e)
    ];
    held = λ j x m.
        (let k =
            write_both (λ g xs. In x xs → HoldsIn j x g) home j ring (fresh ∷ lists home) s.rings
              lists
              (λ r m. elim m [
                | inl e ↦
                    subst⁻¹ (λ z. HoldsIn z x ring) r
                      (subst⁻¹ (λ z. HoldsIn home z ring) e new_held)
                | inr m ↦
                    let k = old_held home x (h.held home x m) in
                    (k.0, old_value x m ∙ k.1, k.2, k.3 ∙ sym r, k.4)
              ])
              (λ _ m. old_held j x (h.held j x m)) m in
          record { entry = k.0; value = k.1; found = k.2; home = k.3; pointer = k.4 });
  }
