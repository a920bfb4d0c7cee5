-- ===== src/Tree.antt =====
-- The red-black trees that the profiler searches itself. include/rbtree.h and src/utils/rbtree.c
-- are a copy of the Linux kernel's and a parameter: a client sees nodes with a left and a right
-- child, descends by its own comparisons to a free place, links its node there and has the library
-- rebalance the tree. What the library promises is that the order of the nodes does not change.
pub mod Order
pub mod Insert
pub mod Search
use profiling.Prelude.{ℕ, ◌≡◌, refl, List, [], ◌∷◌, ◌++◌}

pub data Tree (A : Type 0) : Type 0 where
  leaf : Tree A
  node : Tree A → A → Tree A → Tree A

pub data Side : Type 0 where
  left right : Side

module _ {A : Type 0} where
  -- The nodes in the order of `rb_first` and `rb_next`.
  abbrev pub in_order : Tree A → List A
  in_order leaf = []
  in_order (node l x r) = in_order l ++ (x ∷ in_order r)

  -- `rb_link_node`: the new node stands without children at the free place to which the path of
  -- the descent leads.
  unfoldable pub rb_link_node : Tree A → List Side → A → Tree A
  rb_link_node leaf path x = node leaf x leaf
  rb_link_node (node l y r) [] x = node l y r
  rb_link_node (node l y r) (left ∷ path) x = node (rb_link_node l path x) y r
  rb_link_node (node l y r) (right ∷ path) x = node l y (rb_link_node r path x)

-- `rb_insert_color` gets the tree and the place of the new node.
pub record RbTree (A : Type 0) : Type 0 where
  pub rb_insert_color : Tree A → List Side → Tree A
  pub in_order-rb_insert_color :
      (t : Tree A) (path : List Side) → in_order (rb_insert_color t path) ≡ in_order t

-- A library that never rebalances keeps the promise.
abbrev pub unbalanced : {A : Type 0} → RbTree A
unbalanced = record { rb_insert_color = λ t path. t; in_order-rb_insert_color = λ t path. refl }
