-- ===== src/Main/Ready.antt =====
-- What a started process has (src/index.ts, src/config/loader.ts, src/custody/key-vault.ts).
use zuul_proxy.Prelude.{
  String, ◌≡◌, refl, Bool, List, [], ◌∷◌, Option, some, All, All-map, arith, Option-cases, inl, inr,
  ◌==◌, eq_refl, Bool-cases,
}
use zuul_proxy.Prelude.Dict.{Dict, get, set, get-set}
use zuul_proxy.Prelude.Text.{concat}
use zuul_proxy.Prelude.Json.{Json}
use zuul_proxy.Types.{Result, ok, Result-cases}
use zuul_proxy.Config.{ToolConfig}
use zuul_proxy.Config.Loader.{load_config_default}
use zuul_proxy.Config.Loader.Loaded.{IsLoaded, load_config_ok_iff}
use zuul_proxy.Custody.{KeyVault, get_key}
use zuul_proxy.Main.{Started, present, collect_keys, with_keys, with_config, started, main}

-- The map has a key for a tool.
abbrev IsHeld : Dict String → String → Type 0
IsHeld keys tool = (key : String) × (get tool keys ≡ some key)

IsHeld-set :
    (keys : Dict String) (tool t key : String) → IsHeld keys tool → IsHeld (set t key keys) tool
IsHeld-set keys tool t key (old, found) = elim (Bool-cases (t == tool)) [
  | inl same ↦ (key, rw (get-set t tool key keys, same) refl)
  | inr other ↦ (old, rw (get-set t tool key keys, other) found)
]

module _ (env : String → Option String) where
  collect_keys-kept :
      (ts : List ToolConfig) (m keys : Dict String) (tool : String)
      → collect_keys env ts m ≡ ok keys
      → IsHeld m tool
      → IsHeld keys tool
  unfolding collect_keys
  collect_keys-kept [] m keys tool e h = let same : m ≡ keys = cc in rw (← same) h
  collect_keys-kept (t ∷ ts) m keys tool e h = elim (Option-cases (present (env t.key_ref))) [
    | inl missing ↦ absurd (cc (rw (missing, collect_keys) at e))
    | inr (key, found) ↦
        collect_keys-kept ts (set t.key key m) keys tool (rw (found, collect_keys) at e)
          (IsHeld-set m tool t.key key h)
  ]

  collect_keys-IsHeld :
      (ts : List ToolConfig) (m keys : Dict String)
      → collect_keys env ts m ≡ ok keys
      → All (λ t. IsHeld keys t.key) ts
  unfolding collect_keys
  collect_keys-IsHeld [] m keys e = tt
  collect_keys-IsHeld (t ∷ ts) m keys e = elim (Option-cases (present (env t.key_ref))) [
    | inl missing ↦ absurd (cc (rw (missing, collect_keys) at e))
    | inr (key, found) ↦
        let rest = rw (found, collect_keys) at e in
        (
          collect_keys-kept ts (set t.key key m) keys t.key rest
              (key, rw (get-set t.key t.key key m, eq_refl t.key) refl),
          collect_keys-IsHeld ts (set t.key key m) keys rest,
        )
  ]

-- The key vault gives a handle for the tool.
abbrev pub HasHandle : KeyVault → ToolConfig → Type 0
HasHandle vault t = (handle : String) × (get_key t.key vault ≡ ok handle)

IsHeld-HasHandle :
    (keys : Dict String) (t : ToolConfig) → IsHeld keys t.key → HasHandle (record { keys = keys }) t
unfolding get_key
IsHeld-HasHandle keys t (key, found) = (concat "vault:" t.key, ground (arith, found))

module _ (env : String → Option String) (is_url : String → Bool) (issues : Json → String)
    (read_file : String → Result String String) (parse_yaml : String → Result String Json) where
  -- A process that has started was given a configuration that loading promises, and a key for every
  -- tool of it: no request for one of these tools fails for want of a handle.
  pub main-HasHandle :
      (s : Started)
      → main env is_url issues read_file parse_yaml ≡ ok s
      → IsLoaded env is_url issues read_file parse_yaml "./config.yaml" s.config
        × All (HasHandle s.custody) s.config.tools
  unfolding main load_config_default
  main-HasHandle s e =
      elim (Result-cases (load_config_default env is_url issues read_file parse_yaml)) [
        | inr (m, failed) ↦ absurd (cc (rw (failed, main) at e))
        | inl (config, loaded) ↦ elim (Result-cases (collect_keys env config.tools [])) [
          | inr (m, failed) ↦ absurd (cc (rw (loaded, failed, main, with_config) at e))
          | inl (keys, collected) ↦ elim (Option-cases (present (env "AUDIT_CONTRACT_ADDRESS"))) [
            | inl unset ↦
                absurd (cc (rw (loaded, collected, unset, main, with_config, with_keys) at e))
            | inr (address, set) ↦
                let same : started env config keys address ≡ s =
                  cc (rw (loaded, collected, set, main, with_config, with_keys) at e) in
                rw (← same) (
                  (load_config_ok_iff env is_url issues read_file parse_yaml "./config.yaml"
                        config).0
                      loaded,
                  All-map (λ t. IsHeld keys t.key) (HasHandle (record { keys = keys }))
                      (IsHeld-HasHandle keys) config.tools
                      (collect_keys-IsHeld env config.tools [] keys collected),
                )
          ]
        ]
      ]
