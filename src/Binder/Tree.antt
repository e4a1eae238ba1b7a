-- ===== src/Binder/Tree.antt =====
-- The search trees of the binder driver: the descent by key that binder.c writes out for threads
-- and nodes, and the link of a new entry where the descent ended. The kernel's rebalancing is a
-- parameter that keeps the order of the entries.
pub mod Order
pub mod Update
use droid_kernal.Prelude.{ℕ, ◌≡◌, List, [], ◌∷◌, ◌++◌, Option, none, some, ltb, ◌==◌, if◌then◌else◌}

pub data Tree (A : Type 0) : Type 0 where
  leaf : Tree A
  branch : Tree A → A → Tree A → Tree A

-- The entries from left to right.
abbrev pub to_list : {A : Type 0} → Tree A → List A
to_list leaf = []
to_list (branch l x r) = to_list l ++ (x ∷ to_list r)

-- rb_insert_color, which may turn the tree but keeps its order.
abbrev pub KeepsOrder : {A : Type 0} → (Tree A → Tree A) → Type 0
KeepsOrder {A} rebalance = (t : Tree A) → to_list (rebalance t) ≡ to_list t

module _ {A : Type 0} (key : A → ℕ) where
  -- `while (*p)`: left where the key is smaller, right where it is larger.
  unfoldable pub find : ℕ → Tree A → Option A
  find k leaf = none
  find k (branch l x r) =
      let left = find k l in
      let right = find k r in
      if ltb k (key x) then left else if ltb (key x) k then right else some x

  -- rb_link_node at the place where the descent for a new key ends.
  unfoldable pub link : A → Tree A → Tree A
  link a leaf = branch leaf a leaf
  link a (branch l x r) =
      let left = branch (link a l) x r in
      let right = branch l x (link a r) in if ltb (key a) (key x) then left else right

  -- A change of the entry with a key, which other pointers to it see.
  unfoldable pub update : ℕ → (A → A) → Tree A → Tree A
  update k f leaf = leaf
  update k f (branch l x r) = branch (update k f l) (if key x == k then f x else x) (update k f r)
