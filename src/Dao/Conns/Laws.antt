-- ===== src/Dao/Conns/Laws.antt =====
-- `checkShard` and `GetTable`: the shard of a table, and the name of the table that holds a key.
use j7f.Base.{
  ℕ, zero, suc, ◌+◌, ◌≤◌, ◌<◌, ◌^◌, ◌≡◌, refl, ap, ◌∙◌, ◌⊎◌, inl, inr, Bool, true, ◌&&◌, List, [],
  ◌∷◌, ◌++◌, map, Option, none, some, arith, Text, same_text, codes, if◌then◌else◌, length,
  get_elem?, All, Bool-cases,
}
use j7f.Base.Int.{ℤ, pos}
use j7f.Strconv.{itoa}
use j7f.Shard.{Value, mod_hash}
use j7f.Shard.Modulo.{mod_find_bounds}
use j7f.Shard.Dates.{Date}
use j7f.Shard.Configs.{
  ShardConfig, Shard, mod_shard, mod_type, find_for_key, parse_config, parse_shard,
}
use j7f.Shard.Configs.Laws.{
  is_known, parse_config_mod, find_for_key_mod, parse_shard-Parsed, Parsed-get_elem?, Parsed-length,
  count_known,
}
use j7f.Dao.{Node, returned, panicked, ◌>>=◌}
use j7f.Dao.Conns.{find_config, shard_at, check_shard, numbered_table, get_table}

abbrev is_for : Text → Text → ShardConfig → Bool
is_for db table v = same_text v.db db && same_text v.table table

-- The first configuration for a table.
abbrev pub config_for : List ShardConfig → Text → Text → Option ShardConfig
config_for [] db table = none
config_for (v ∷ vs) db table = if is_for db table v then some v else config_for vs db table

-- The shards and the names of a node are those of its configuration, as in `NewNode`.
pub record IsParsed {Db : Type 0} (n : Node Db) : Type 0 where
  pub shards : parse_shard n.cfg.shard ≡ some n.shard
  pub names : n.shard_db ≡ map (λ v. v.db) n.cfg.shard

data Found (k : ℕ) (cfgs : List ShardConfig) (db table : Text) : Type 0 where
  missing :
      find_config k cfgs db table ≡ none → config_for cfgs db table ≡ none → Found k cfgs db table
  found :
      (j : ℕ) (cfg : ShardConfig)
      → find_config k cfgs db table ≡ some (k + j)
      → config_for cfgs db table ≡ some cfg
      → get_elem? cfgs j ≡ some cfg
      → same_text cfg.db db ≡ true
      → Found k cfgs db table

find_config-Found : (k : ℕ) (cfgs : List ShardConfig) (db table : Text) → Found k cfgs db table
unfolding find_config
find_config-Found k [] db table = missing refl refl
find_config-Found k (v ∷ vs) db table = elim (Bool-cases (is_for db table v)) [
  | inl e ↦
      let z : k ≡ k + 0 = omega arith in
      found 0 v (ground (arith, z)) (ground arith) refl (ground arith)
  | inr e ↦ elim (find_config-Found (k + 1) vs db table) [
    | missing a b ↦ missing (ground arith) (ground arith)
    | found j cfg a b c d ↦
        let z : k + 1 + j ≡ k + suc j = omega arith in
        found (suc j) cfg (ground (arith, z)) (ground arith) c d
  ]
]

check_shard_missing :
    {Db : Type 0} (n : Node Db) (dbs : List Text) (db table : Text)
    → find_config 0 n.cfg.shard db table ≡ none
    → check_shard n dbs db table ≡ returned none
unfolding check_shard
check_shard_missing n [] db table h = refl
check_shard_missing n (d ∷ dbs) db table h = ground (arith, check_shard_missing n dbs db table h)

-- The name stands in the outer loop's list, since a configuration has it.
check_shard_found :
    {Db : Type 0} (n : Node Db) (cfgs : List ShardConfig) (db table : Text) (k j : ℕ)
    (cfg : ShardConfig)
    → find_config 0 n.cfg.shard db table ≡ some k
    → get_elem? cfgs j ≡ some cfg
    → same_text cfg.db db ≡ true
    → check_shard n (map (λ v. v.db) cfgs) db table ≡ shard_at n.shard k
unfolding check_shard
check_shard_found n [] db table k j cfg h e d = cc
check_shard_found n (v ∷ vs) db table k zero cfg h e d = ground arith
check_shard_found n (v ∷ vs) db table k (suc j) cfg h e d =
    ground (arith, check_shard_found n vs db table k j cfg h e d)

check_shard_at :
    {Db : Type 0} (n : Node Db) (db table : Text) (k j : ℕ) (cfg : ShardConfig)
    → IsParsed n
    → find_config 0 n.cfg.shard db table ≡ some k
    → get_elem? n.cfg.shard j ≡ some cfg
    → same_text cfg.db db ≡ true
    → check_shard n n.shard_db db table ≡ shard_at n.shard k
check_shard_at n db table k j cfg p h e d =
    ap (λ dbs. check_shard n dbs db table) p.names
    ∙ check_shard_found n n.cfg.shard db table k j cfg h e d

-- On a node with the shards and names of its configuration, all of known types, `checkShard`
-- gives the shard that the first configuration for the table describes, and none where no
-- configuration is for it.
check_shard_known :
    {Db : Type 0} (n : Node Db) (db table : Text)
    → IsParsed n
    → All (λ cfg. is_known cfg ≡ true) n.cfg.shard
    → ((config_for n.cfg.shard db table ≡ none)
        × (check_shard n n.shard_db db table ≡ returned none))
      ⊎ ((cfg : ShardConfig) × (s : Shard) × (config_for n.cfg.shard db table ≡ some cfg)
          × (parse_config cfg ≡ some (s ∷ []))
          × (check_shard n n.shard_db db table ≡ returned (some s)))
unfolding shard_at
check_shard_known n db table p all = elim (find_config-Found 0 n.cfg.shard db table) [
  | missing a b ↦ inl (b, check_shard_missing n n.shard_db db table a)
  | found j cfg a b c d ↦
      let (s, x, y) =
        Parsed-get_elem? (parse_shard-Parsed n.cfg.shard n.shard p.shards) all j cfg c in
      let z : 0 + j ≡ j = omega arith in
      let a' : find_config 0 n.cfg.shard db table ≡ some j = a ∙ ap some z in
      inr (cfg, s, b, x, rw (check_shard_at n db table j j cfg p a' c d) (ground arith))
]

get_elem?-past {ℓ} : {A : Type ℓ} (xs : List A) (k : ℕ) → length xs ≤ k → get_elem? xs k ≡ none
get_elem?-past [] k h = refl
get_elem?-past (x ∷ xs) zero h = absurd (omega arith)
get_elem?-past (x ∷ xs) (suc k) h = get_elem?-past xs k (omega arith)

-- On a node with the shards and names of its configuration, `GetTable` panics for a table whose
-- first configuration stands at an index that is not below the number of configurations of
-- known types.
get_table_panics :
    {Db : Type 0} (local : ℤ → Date) (n : Node Db) (db table : Text) (key : List Value) (k : ℕ)
    → IsParsed n
    → find_config 0 n.cfg.shard db table ≡ some k
    → count_known n.cfg.shard ≤ k
    → get_table local n db table key ≡ panicked
unfolding get_table shard_at
get_table_panics local n db table key k p h l = elim (find_config-Found 0 n.cfg.shard db table) [
  | missing a b ↦ cc
  | found j cfg a b c d ↦
      let size = Parsed-length (parse_shard-Parsed n.cfg.shard n.shard p.shards) in
      let past = get_elem?-past n.shard k (omega arith) in
      let out : check_shard n n.shard_db db table ≡ panicked =
        rw (check_shard_at n db table k j cfg p h c d) (ground arith) in
      rw (out, ◌>>=◌) refl
]

-- On a node with the shards and names of its configuration, all of known types: where the first
-- configuration for a table asks for `n` shards by remainder, with 0 < n < 2 ^ 63, and the key
-- gives a value without an error, `GetTable` returns the table's name with a number below `n`.
pub get_table_mod :
    {Db : Type 0} (local : ℤ → Date) (node : Node Db) (db table : Text) (key : List Value)
    (cfg : ShardConfig) (n : ℕ)
    → IsParsed node
    → All (λ c. is_known c ≡ true) node.cfg.shard
    → config_for node.cfg.shard db table ≡ some cfg
    → cfg.type ≡ mod_type
    → cfg.mod_num ≡ pos n
    → 0 < n
    → n < 2 ^ 63
    → (mod_hash key).1 ≡ none
    → (k : ℕ) × (k < n)
      × (get_table local node db table key
          ≡ returned (db ++ codes "." ++ table ++ codes "_" ++ itoa (pos k)))
unfolding get_table numbered_table
get_table_mod local node db table key cfg n p all c t m h l good =
    elim (check_shard_known node db table p all) [
      | inl (a, b) ↦ cc
      | inr (cfg', s, a, x, y) ↦
          let one : s ≡ mod_shard (pos n) = ground (arith, parse_config_mod cfg t) in
          let (k, below, z) = mod_find_bounds n key h l in
          let reply : find_for_key local s key ≡ some (pos k, none) =
            rw (one, find_for_key_mod local (pos n) key, z, good) refl in
          (k, below, rw (y, ◌>>=◌) (rw (reply, numbered_table) refl))
    ]
