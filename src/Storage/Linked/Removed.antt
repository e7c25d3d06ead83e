-- ===== src/Storage/Linked/Removed.antt =====
-- `Remove` of pkg/storage/lru/storage.go: a list and the map each lose what they held.
use mathlib.Core.Path.{subst, subst⁻¹}
use advinced_cache.Prelude.{
  ℕ, ◌≡◌, ◌≢◌, refl, ap, sym, ◌∙◌, false, not, some, none, List, ◌∷◌, ◌++◌, length, length-set, inl,
  inr, ◌==◌, Bool-cases, arith, ==_refl,
}
use advinced_cache.Sharded.{Map, get, remove_map}
use advinced_cache.Sharded.Placed.{get-remove_map}
use advinced_cache.Ring.{Ring, detach, remove}
use advinced_cache.Ring.Links.{Apart-mid, IsRing}
use advinced_cache.Ring.Moves.{remove-IsRing}
use advinced_cache.Storage.{Storage, write, unlink, weight_at, remove_entry}
use advinced_cache.Storage.Linked.{
  In, In-split, In-others, In-more, Avoids-In, IsLinked, write_both,
}

value-remove : (e : ℕ) (l : Ring ℕ) → (remove e l).value ≡ l.value
unfolding remove detach
value-remove e l = elim (Bool-cases (not (l.owned e))) [
  | inl q ↦ rw (q, remove) refl
  | inr q ↦ rw (q, remove) refl
]

unlink_moves :
    (p el : ℕ) (s : Storage)
    → (s.entries p).lru_list_elem ≡ some el
    → unlink p s ≡ record s {
      rings = write (s.entries p).shard (remove el (s.rings (s.entries p).shard)) s.rings;
    }
unfolding unlink
unlink_moves p el s e = rw (e, unlink) refl

-- The storage without the entry.
abbrev without : ℕ → ℕ → Storage → Storage
without p el s = record s {
  rings = write (s.entries p).shard (remove el (s.rings (s.entries p).shard)) s.rings;
  sharded_map = (remove_map (weight_at s) (s.entries p).key s.sharded_map).0;
}

remove_entry-without :
    (p el : ℕ) (s : Storage)
    → (s.entries p).lru_list_elem ≡ some el
    → (remove_entry p s).0 ≡ without p el s
unfolding remove_entry
remove_entry-without p el s e =
    ap {A = Storage} {B = Storage}
      (λ s'. record s' {
        sharded_map = (remove_map (weight_at s') (s'.entries p).key s'.sharded_map).0;
      })
      (unlink_moves p el s e)

size-remove_map :
    (weight : ℕ → ℕ) (key : ℕ) (m : Map ℕ)
    → length (remove_map weight key m).0.shards ≡ length m.shards
unfolding remove_map
size-remove_map weight key m = length-set m.shards _ _

same_some : (a b : ℕ) → some a ≡ some b → a ≡ b
same_some a b e = ground arith

module _ (p : ℕ) (s : Storage) (lists : ℕ → List ℕ) (h : IsLinked s lists)
    (found : get s.sharded_map (s.entries p).key ≡ some p) where
  abbrev key : ℕ
  key = (s.entries p).key

  abbrev home : ℕ
  home = (s.entries p).shard

  still_found :
      (k q : ℕ)
      → get s.sharded_map k ≡ some q
      → key ≢ k
      → get (remove_map (weight_at s) key s.sharded_map).0 k ≡ some q
  still_found k q e other =
      let differ : (key == k) ≡ false = ground arith in
      get-remove_map (weight_at s) key k s.sharded_map h.size ∙ rw differ e

  pub lost : get (remove_map (weight_at s) key s.sharded_map).0 key ≡ none
  lost = get-remove_map (weight_at s) key key s.sharded_map h.size ∙ rw (==_refl key) refl

  found_before :
      (k q : ℕ)
      → get (remove_map (weight_at s) key s.sharded_map).0 k ≡ some q
      → (get s.sharded_map k ≡ some q) × (p ≢ q)
  found_before k q e =
      let other : key ≢ k = λ r.
        (let no : none ≡ some q =
            sym (subst (λ z. get (remove_map (weight_at s) key s.sharded_map).0 z ≡ none) r lost)
            ∙ e in
          absurd (ground arith)) in
      let differ : (key == k) ≡ false = ground arith in
      let before : get s.sharded_map k ≡ some q =
        sym (get-remove_map (weight_at s) key k s.sharded_map h.size ∙ rw differ refl) ∙ e in
      (before, λ r. other (ap (λ z. (s.entries z).key) r ∙ (h.listed k q before).own_key))

  module _ (el : ℕ) (ys zs : List ℕ) (pointer : (s.entries p).lru_list_elem ≡ some el)
      (value : (s.rings home).value el ≡ some p) (split : lists home ≡ ys ++ el ∷ zs) where
    apart : IsRing (s.rings home) (ys ++ el ∷ zs)
    apart = subst (IsRing (s.rings home)) split (h.rings home)

    left : ℕ → List ℕ
    left = write home (ys ++ zs) lists

    not_element : (q x : ℕ) → (s.rings home).value x ≡ some q → p ≢ q → x ≢ el
    not_element q x e other r =
        other (same_some p q (sym value ∙ subst (λ z. (s.rings home).value z ≡ some q) r e))

    without-IsLinked : IsLinked (without p el s) left
    unfolding left
    without-IsLinked = record {
      size = size-remove_map (weight_at s) key s.sharded_map ∙ h.size;
      rings = λ j.
          write_both IsRing home j (remove el (s.rings home)) (ys ++ zs) s.rings lists
            (λ _. remove-IsRing (s.rings home) ys zs el apart) (λ _. h.rings j);
      listed = λ k q e.
          (let (before, other) = found_before k q e in
            let n = h.listed k q before in
            let i = (s.entries q).shard in
            let moved =
              write_both (λ g xs. In n.element xs × (g.value n.element ≡ some q)) home i
                (remove el (s.rings home)) (ys ++ zs) s.rings lists
                (λ r.
                  let v : (s.rings home).value n.element ≡ some q =
                    subst (λ z. (s.rings z).value n.element ≡ some q) r n.value in
                  (
                    In-others n.element el ys zs (not_element q n.element v other) (
                        subst (In n.element) split
                          (subst (λ z. In n.element (lists z)) r n.inside)),
                    ap (λ f. f n.element) (value-remove el (s.rings home)) ∙ v,
                  ))
                (λ _. (n.inside, n.value)) in
            record {
              own_key = n.own_key;
              element = n.element;
              pointer = n.pointer;
              inside = moved.0;
              value = moved.1;
            });
      held = λ j x m.
          (let k =
              write_both
                (λ g xs.
                  In x xs
                  → (q : ℕ) × (g.value x ≡ some q)
                    × (get s.sharded_map (s.entries q).key ≡ some q)
                    × ((s.entries q).shard ≡ j)
                    × ((s.entries q).lru_list_elem ≡ some x)
                    × (p ≢ q))
                home j (remove el (s.rings home)) (ys ++ zs) s.rings lists
                (λ r m.
                  let k = h.held home x (subst (In x) (sym split) (In-more x el ys zs m)) in
                  let away = Avoids-In el x (ys ++ zs) (Apart-mid ys zs el apart.apart).0 m in
                  (
                    k.entry,
                    ap (λ f. f x) (value-remove el (s.rings home)) ∙ k.value,
                    k.found,
                    k.home ∙ sym r,
                    k.pointer,
                    λ z. away (
                        same_some el x
                          (sym pointer ∙ ap (λ e. (s.entries e).lru_list_elem) z ∙ k.pointer)),
                  ))
                (λ r m.
                  let k = h.held j x m in
                  (
                    k.entry,
                    k.value,
                    k.found,
                    k.home,
                    k.pointer,
                    λ z. r (sym k.home ∙ ap (λ e. (s.entries e).shard) (sym z)),
                  ))
                m in
            record {
              entry = k.0;
              value = k.1;
              found =
                  still_found (s.entries k.0).key k.0 k.2
                    (λ z. k.5 (same_some p k.0 (sym found ∙ ap (get s.sharded_map) z ∙ k.2)));
              home = k.3;
              pointer = k.4;
            });
    }

-- Removing a stored entry.
pub remove_entry-IsLinked :
    (key p : ℕ) (s : Storage) (lists : ℕ → List ℕ)
    → IsLinked s lists
    → get s.sharded_map key ≡ some p
    → (lists' : ℕ → List ℕ) × IsLinked (remove_entry p s).0 lists'
      × (get (remove_entry p s).0.sharded_map key ≡ none)
remove_entry-IsLinked key p s lists h found =
    let l = h.listed key p found in
    let el = l.element in
    let here = subst (λ k. get s.sharded_map k ≡ some p) (sym l.own_key) found in
    let (ys, zs, q) = In-split el (lists (s.entries p).shard) l.inside in
    let done = without-IsLinked p s lists h here el ys zs l.pointer l.value q in
    let gone =
      subst (λ k. get (without p el s).sharded_map k ≡ none) l.own_key (lost p s lists h here) in
    (
      left p s lists h here el ys zs l.pointer l.value q,
      subst⁻¹ (λ s'. IsLinked s' (left p s lists h here el ys zs l.pointer l.value q))
          (remove_entry-without p el s l.pointer) done,
      subst⁻¹ (λ s'. get s'.sharded_map key ≡ none) (remove_entry-without p el s l.pointer) gone,
    )
