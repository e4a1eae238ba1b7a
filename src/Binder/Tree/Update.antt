-- ===== src/Binder/Tree/Update.antt =====
-- A change of an entry in place, and what the descent finds afterwards.
use droid_kernal.Prelude.{
  ℕ, suc, ◌≤◌, ◌≡◌, refl, sym, ap, ◌∙◌, subst, List, [], ◌∷◌, none, some, arith, ◌==◌,
  if◌then◌else◌, map,
}
use mathlib.Core.List.{map-append}
use mathlib.Core.Option
use droid_kernal.Binder.Tree.{Tree, leaf, branch, to_list, find, link, update, KeepsOrder}
use droid_kernal.Binder.Tree.Order.{
  Asc, lookup, insert, find-lookup, to_list-link, Asc-insert, lookup-insert,
}

module _ {A : Type 0} (key : A → ℕ) where
  pub key-find : (k : ℕ) (t : Tree A) (a : A) → find key k t ≡ some a → key a ≡ k
  unfolding find
  key-find k leaf a h = cc
  key-find k (branch l x r) a h = ground (arith, key-find k l a, key-find k r a)

  pub find-update :
      (k j : ℕ) (f : A → A) (t : Tree A)
      → ((x : A) → key (f x) ≡ key x)
      → find key j (update key k f t)
        ≡ (if k == j then Option.map f (find key j t) else find key j t)
  unfolding find update
  find-update k j f leaf same = ground arith
  find-update k j f (branch l x r) same =
      ground (arith, same x, find-update k j f l same, find-update k j f r same)

  -- Putting another entry with its key in the place of an entry.
  pub find-put :
      (k : ℕ) (a b : A) (t : Tree A)
      → key a ≡ k
      → find key k t ≡ some b
      → find key k (update key k (λ old. a) t) ≡ some a
  unfolding find update
  find-put k a b leaf same h = ground arith
  find-put k a b (branch l x r) same h =
      ground (arith, find-put k a b l same, find-put k a b r same)

  to_list-update :
      (k : ℕ) (f : A → A) (t : Tree A)
      → to_list (update key k f t) ≡ map (λ x. if key x == k then f x else x) (to_list t)
  unfolding update
  to_list-update k f leaf = refl
  to_list-update k f (branch l x r) =
      rw (to_list-update k f l, to_list-update k f r)
        (sym (map-append _ (to_list l) (x ∷ to_list r)))

  Asc-map :
      (g : A → A) (lo : ℕ) (xs : List A)
      → ((x : A) → key (g x) ≡ key x)
      → Asc key lo xs
      → Asc key lo (map g xs)
  Asc-map g lo [] same s = tt
  Asc-map g lo (x ∷ xs) same s = (
    subst (λ n. lo ≤ n) (sym (same x)) s.0,
    subst (λ n. Asc key (suc n) (map g xs)) (sym (same x)) (Asc-map g (suc (key x)) xs same s.1),
  )

  -- The order of a tree depends on the keys alone.
  pub Asc-update :
      (k : ℕ) (f : A → A) (lo : ℕ) (t : Tree A)
      → ((x : A) → key (f x) ≡ key x)
      → Asc key lo (to_list t)
      → Asc key lo (to_list (update key k f t))
  Asc-update k f lo t same s =
      rw (to_list-update k f t) (Asc-map _ lo (to_list t) (λ x. ground (arith, same x)) s)

  -- A tree with a new key linked and rebalanced is in order, and the descent finds the new entry
  -- under its key and the old ones under theirs.
  module _ (balance : Tree A → Tree A) (keeps : KeepsOrder balance) (a : A) (t : Tree A)
      (s : Asc key 0 (to_list t)) (new : find key (key a) t ≡ none) where
    listed : to_list (balance (link key a t)) ≡ insert key a (to_list t)
    listed = keeps (link key a t) ∙ to_list-link key a 0 t s

    absent : lookup key (key a) (to_list t) ≡ none
    absent = sym (find-lookup key (key a) 0 t s) ∙ new

    pub Asc-balance-link : Asc key 0 (to_list (balance (link key a t)))
    Asc-balance-link = rw listed (Asc-insert key a 0 (to_list t) s (omega arith) absent)

    pub find-balance-link :
        (k : ℕ)
        → find key k (balance (link key a t)) ≡ (if key a == k then some a else find key k t)
    find-balance-link k =
        find-lookup key k 0 (balance (link key a t)) Asc-balance-link
        ∙ ap (lookup key k) listed
        ∙ lookup-insert key k a 0 (to_list t) s absent
        ∙ ap (λ o. if key a == k then some a else o) (sym (find-lookup key k 0 t s))
