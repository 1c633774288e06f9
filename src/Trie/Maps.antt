-- ===== src/Trie/Maps.antt =====
-- The laws of the map of children.
use j7f.Base.{ℕ, ◌≡◌, refl, none, some, arith, ◌==◌, if◌then◌else◌}
use j7f.Trie.{Node, Children, no_child, child, load, store, delete}

pub load-store :
    (c d : ℕ) (n : Node) (cs : Children)
    → load d (store c n cs) ≡ (if c == d then some n else load d cs)
unfolding load store
load-store c d n no_child = refl
load-store c d n (child b m cs) = ground (arith, load-store c d n cs)

pub load-delete :
    (c d : ℕ) (cs : Children) → load d (delete c cs) ≡ (if c == d then none else load d cs)
unfolding load delete
load-delete c d no_child = ground arith
load-delete c d (child b m cs) = ground (arith, load-delete c d cs)

-- To store what the map holds already changes nothing.
pub store-load : (c : ℕ) (n : Node) (cs : Children) → load c cs ≡ some n → store c n cs ≡ cs
unfolding load store
store-load c n no_child h = cc
store-load c n (child b m cs) h = ground (arith, store-load c n cs)
