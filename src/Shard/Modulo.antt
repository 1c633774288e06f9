-- ===== src/Shard/Modulo.antt =====
-- `ModShard`: bounds, and one shard for a number and its decimal text.
use j7f.Base.{ℕ, ◌-◌, ◌<◌, ◌%◌, ◌^◌, ◌≡◌, refl, List, [], ◌∷◌, none, some, arith}
use j7f.Base.Int.{ℤ, pos, negsuc, to_u64}
use j7f.Strconv.{format_uint}
use j7f.Strconv.Laws.{parse_uint-format_uint}
use j7f.Shard.{Value, int, uint64, string, mod_hash, mod_find}
use native.Mathlib.Nat.{mod-lt}

-- With `n` shards, 0 < n < 2 ^ 63, `ModShard` returns an index below `n` for all keys, with the
-- error of the key's value.
pub mod_find_bounds :
    (n : ℕ) (key : List Value)
    → 0 < n
    → n < 2 ^ 63
    → (k : ℕ) × (k < n) × (mod_find (pos n) key ≡ some (pos k, (mod_hash key).1))
unfolding mod_find
mod_find_bounds n key h k =
    let m = (mod_hash key).0 in (m % n, mod-lt m h, ground (arith, mod-lt m h))

-- A uint64 key and its decimal text belong to the same shard, whatever the number of shards is.
mod_find_decimal :
    (shard_num : ℤ) (v : ℕ)
    → v < 2 ^ 64
    → mod_find shard_num (string (format_uint v) ∷ []) ≡ mod_find shard_num (uint64 v ∷ [])
unfolding mod_find mod_hash
mod_find_decimal shard_num v h = ground (arith, parse_uint-format_uint v h)

-- With `n` shards, 0 < n < 2 ^ 63, a negative int key belongs to the shard that is the
-- remainder of its two's complement by `n`.
mod_find_negative :
    (n v : ℕ)
    → 0 < n
    → n < 2 ^ 63
    → v < 2 ^ 63
    → mod_find (pos n) (int (negsuc v) ∷ []) ≡ some (pos ((2 ^ 64 - 1 - v) % n), none)
unfolding mod_find mod_hash
mod_find_negative n v h k l = ground (arith, mod-lt (2 ^ 64 - 1 - v) h)

pub mod_hash_int : (v : ℤ) → mod_hash (int v ∷ []) ≡ (to_u64 v, none)
unfolding mod_hash
mod_hash_int v = refl
