-- ===== src/Config/Laws.antt =====
-- What `LoadConfig` of src/config.cpp makes of an environment.
use autodngconverter.Base.{
  ◌≡◌, ap, Bool, Option, none, some, [], ◌∷◌, arith, Bytes, codes, ℤ, pos, stoi, stoi-IsInt, IsInt,
  IsIntResult,
}
use autodngconverter.Util.Env.{Env, getenv}
use autodngconverter.Config.{default_config, trim, env_or, env_bool, env_int, parse_or, load_config}

parse_or-IsInt : (v : Bytes) (def : ℤ) → IsInt def → IsInt (parse_or v def)
unfolding parse_or
parse_or-IsInt [] def h = h
parse_or-IsInt (c ∷ s) def h = go (stoi (c ∷ s)) (stoi-IsInt (c ∷ s))
  where
    go : (r : Option ℤ) → IsIntResult r → IsInt (elim r [ none ↦ def | some n ↦ n ])
    go none k = h
    go (some n) k = k

env_int-IsInt : (env : Env) (name : Bytes) (def : ℤ) → IsInt def → IsInt (env_int env name def)
unfolding env_int
env_int-IsInt env name def h = go (getenv env name)
  where
    go : (r : Option Bytes) → IsInt (elim r [ none ↦ def | some v ↦ parse_or (trim v) def ])
    go none = h
    go (some v) = parse_or-IsInt (trim v) def h

-- The number that a variable spells, if it has a value that `stoi` reads.
abbrev pub spelled : Env → Bytes → Option ℤ
spelled env name = elim (getenv env name) [ none ↦ none | some v ↦ stoi (trim v) ]

env_int-spelled :
    (env : Env) (name : Bytes) (def : ℤ)
    → env_int env name def ≡ elim (spelled env name) [ none ↦ def | some n ↦ n ]
unfolding env_int parse_or
env_int-spelled env name def = ground arith

-- POLL_INTERVAL decides the poll interval if it spells a number, POLL_INTERVAL_SEC if it alone
-- does, and else it is ten seconds.
pub poll_interval_order :
    (env : Env)
    → (load_config env).poll_interval_sec ≡ elim (spelled env (codes "POLL_INTERVAL")) [
      | some n ↦ n
      | none ↦ elim (spelled env (codes "POLL_INTERVAL_SEC")) [ some n ↦ n | none ↦ pos 10 ]
    ]
unfolding load_config
poll_interval_order env = rw (env_int-spelled env (codes "POLL_INTERVAL")) (
    ap (λ (d : ℤ). elim (spelled env (codes "POLL_INTERVAL")) [ some n ↦ n | none ↦ d ])
      (env_int-spelled env (codes "POLL_INTERVAL_SEC") (pos 10)))

module _ (env : Env) (h : (name : Bytes) → getenv env name ≡ none) where
  env_or-unset : (name def : Bytes) → env_or env name def ≡ def
  unfolding env_or
  env_or-unset name def = ground (arith, h name)

  env_int-unset : (name : Bytes) (def : ℤ) → env_int env name def ≡ def
  unfolding env_int
  env_int-unset name def = ground (arith, h name)

  env_bool-unset : (name : Bytes) (def : Bool) → env_bool env name def ≡ def
  unfolding env_bool
  env_bool-unset name def = ground (arith, h name)

-- An empty environment gives the defaults of the header.
pub load_config_unset :
    (env : Env) → ((name : Bytes) → getenv env name ≡ none) → load_config env ≡ default_config
unfolding load_config
load_config_unset env h = simp (env_or-unset env h, env_int-unset env h, env_bool-unset env h)
