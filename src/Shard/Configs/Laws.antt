-- ===== src/Shard/Configs/Laws.antt =====
-- How the shards of `ParseShard` stand beside the configurations that they come from.
use j7f.Base.{
  ℕ, zero, suc, ◌+◌, ◌≡◌, refl, ap, ◌∙◌, Bool, true, false, ◌||◌, List, [], ◌∷◌, ◌++◌, append_assoc,
  append-nil, some, arith, same_text, if◌then◌else◌, length, length-append, get_elem?, All,
  Bool-cases, Option-cases, inl, inr,
}
use j7f.Base.Int.{ℤ}
use j7f.Shard.{Value, mod_find}
use j7f.Shard.Dates.{Date}
use j7f.Shard.Configs.{
  ShardConfig, Shard, mod_shard, find_for_key, mod_type, range_type, date_day_type, date_month_type,
  date_year_type, parse_config, parse_rounds, parse_shard,
}

-- The types that `ParseShard` has a case for.
abbrev pub is_known : ShardConfig → Bool
is_known cfg =
    same_text cfg.type mod_type
    || same_text cfg.type range_type
    || same_text cfg.type date_day_type
    || same_text cfg.type date_month_type
    || same_text cfg.type date_year_type

-- What the rounds append, in order.
pub data Parsed : List ShardConfig → List Shard → Type 0 where
  done : Parsed [] []
  round :
      {cfg : ShardConfig} {cfgs : List ShardConfig} {new shards : List Shard}
      → parse_config cfg ≡ some new
      → Parsed cfgs shards
      → Parsed (cfg ∷ cfgs) (new ++ shards)

parse_rounds-Parsed :
    (cfgs : List ShardConfig) (before shards : List Shard)
    → parse_rounds before cfgs ≡ some shards
    → (new : List Shard) × (shards ≡ before ++ new) × Parsed cfgs new
unfolding parse_rounds
parse_rounds-Parsed [] before shards h = ([], ground (arith, append-nil before), done)
parse_rounds-Parsed (cfg ∷ cfgs) before shards h = elim (Option-cases (parse_config cfg)) [
  | inl e ↦ ground arith
  | inr (one, e) ↦
      let (new, x, y) = parse_rounds-Parsed cfgs (before ++ one) shards (ground arith) in
      (one ++ new, x ∙ append_assoc before one new, round e y)
]

pub parse_shard-Parsed :
    (cfgs : List ShardConfig) (shards : List Shard)
    → parse_shard cfgs ≡ some shards
    → Parsed cfgs shards
unfolding parse_shard
parse_shard-Parsed cfgs shards h = let (new, x, y) = parse_rounds-Parsed cfgs [] shards h in rw x y

one_of {ℓ} : {A : Type ℓ} (xs : List A) → length xs ≡ 1 → (x : A) × (xs ≡ x ∷ [])
one_of [] h = absurd (omega arith)
one_of (x ∷ []) h = (x, refl)
one_of (x ∷ y ∷ xs) h = absurd (omega arith)

parse_config_known :
    (cfg : ShardConfig) (new : List Shard)
    → is_known cfg ≡ true
    → parse_config cfg ≡ some new
    → (s : Shard) × (new ≡ s ∷ [])
unfolding parse_config
parse_config_known cfg new h e = one_of new (ground arith)

parse_config_unknown : (cfg : ShardConfig) → is_known cfg ≡ false → parse_config cfg ≡ some []
unfolding parse_config
parse_config_unknown cfg h = ground arith

-- With known types only, the shard at an index is that of the configuration at the index.
pub Parsed-get_elem? :
    {cfgs : List ShardConfig} {shards : List Shard}
    → Parsed cfgs shards
    → All (λ cfg. is_known cfg ≡ true) cfgs
    → (k : ℕ) (cfg : ShardConfig) → get_elem? cfgs k ≡ some cfg
    → (s : Shard) × (parse_config cfg ≡ some (s ∷ [])) × (get_elem? shards k ≡ some s)
Parsed-get_elem? done all k cfg h = cc
Parsed-get_elem? (round {cfg = c} {new = new} {shards = shards} e r) (known, all) zero cfg h =
    let (s, x) = parse_config_known c new known e in (s, ground arith, ground arith)
Parsed-get_elem? (round {cfg = c} {new = new} {shards = shards} e r) (known, all) (suc k) cfg h =
    let (s, x) = parse_config_known c new known e in
    let (t, y, z) = Parsed-get_elem? r all k cfg h in (t, y, ground arith)

-- Each unknown type leaves the list of shards one shorter.
abbrev pub count_known : List ShardConfig → ℕ
count_known [] = 0
count_known (cfg ∷ cfgs) = (if is_known cfg then 1 else 0) + count_known cfgs

pub Parsed-length :
    {cfgs : List ShardConfig} {shards : List Shard}
    → Parsed cfgs shards
    → length shards ≡ count_known cfgs
Parsed-length done = refl
Parsed-length (round {cfg = c} {cfgs = cfgs} {new = new} {shards = shards} e r) =
    elim (Bool-cases (is_known c)) [
      | inl q ↦
          let (s, x) = parse_config_known c new q e in
          ground (arith, Parsed-length r, length-append new shards)
      | inr q ↦ ground (arith, parse_config_unknown c q, Parsed-length r)
    ]

pub parse_config_mod :
    (cfg : ShardConfig) → cfg.type ≡ mod_type → parse_config cfg ≡ some (mod_shard cfg.mod_num ∷ [])
unfolding parse_config
parse_config_mod cfg h = ground (arith, ap (λ t. same_text t mod_type) h)

pub find_for_key_mod :
    (local : ℤ → Date) (n : ℤ) (key : List Value)
    → find_for_key local (mod_shard n) key ≡ mod_find n key
unfolding find_for_key
find_for_key_mod local n key = refl
