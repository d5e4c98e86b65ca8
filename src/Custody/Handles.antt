-- ===== src/Custody/Handles.antt =====
-- Handles against keys (src/custody/key-vault.ts), and the keys that the loader provides.
use Prim.Native.Char.{code}
use zuul_proxy.Prelude.{
  String, ◌≡◌, ◌≢◌, refl, ap, ◌∙◌, List, [], ◌∷◌, Option, some, arith, eq_iff, eq_refl, All,
  Option-cases, inl, inr,
}
use zuul_proxy.Prelude.Dict.{Dict, get, set, get-set}
use zuul_proxy.Prelude.Text.{concat}
use zuul_proxy.Types.{ok}
use zuul_proxy.Config.{ToolConfig}
use zuul_proxy.Proxy.Registry.Longest.{DistinctKeys}
use zuul_proxy.Custody.{KeyVault, split_colon, get_key, inject, load_keys_from, load_keys_from_env}

-- A text with no colon in it.
abbrev pub NoColon : String → Type 0
NoColon String.[] = Unit
NoColon (String.◌∷◌ c s) = (code c ≢ b':') × NoColon s

split_colon_none : (s : String) → NoColon s → split_colon s ≡ s ∷ []
unfolding split_colon
split_colon_none String.[] h = refl
split_colon_none (String.◌∷◌ c s) (ne, h) = ground (arith, split_colon_none s h)

split_colon_first :
    (s rest : String) → NoColon s → split_colon (concat s (concat ":" rest)) ≡ s ∷ split_colon rest
unfolding split_colon
split_colon_first String.[] rest h = refl
split_colon_first (String.◌∷◌ c s) rest (ne, h) = ground (arith, split_colon_first s rest h)

-- For a tool whose name is not empty and has no colon, and whose key is loaded and not empty, the
-- vault gives a handle, and the handle injects exactly that tool's key.
pub inject-get_key :
    (tool key : String) (v : KeyVault)
    → NoColon tool
    → tool ≢ ""
    → key ≢ ""
    → get tool v.keys ≡ some key
    → (h : String) × (get_key tool v ≡ ok h) × (inject h v ≡ ok key)
unfolding get_key inject
inject-get_key tool key v colon nonempty filled found = (
  concat "vault:" tool,
  ground arith,
  rw (split_colon_none tool colon) (ground (arith, eq_iff tool "", eq_iff key "")),
)

-- The handle of a tool whose name has a colon injects what the handle of the part before the colon
-- injects: the key of another tool, if one has that name.
pub inject_colon :
    (tool rest : String) (v : KeyVault)
    → NoColon tool
    → inject (concat "vault:" (concat tool (concat ":" rest))) v ≡ inject (concat "vault:" tool) v
unfolding inject
inject_colon tool rest v colon = rw (split_colon_first tool rest colon, split_colon_none tool colon)

module _ (env : String → Option String) where
  -- A tool's key is loaded: the environment's value, which is not empty.
  abbrev pub IsLoaded : Dict String → ToolConfig → Type 0
  IsLoaded keys t =
      (key : String) × (env t.key_ref ≡ some key) × (key ≢ "") × (get t.key keys ≡ some key)

  -- One round of the loop that goes on.
  load_keys_step :
      (t : ToolConfig) (ts : List ToolConfig) (m keys : Dict String)
      → load_keys_from env (t ∷ ts) m ≡ ok keys
      → (key : String) × (env t.key_ref ≡ some key)
        × (key ≢ "")
        × (load_keys_from env ts (set t.key key m) ≡ ok keys)
  unfolding load_keys_from
  load_keys_step t ts m keys e = elim (Option-cases (env t.key_ref)) [
    | inl missing ↦ absurd (ground arith)
    | inr (key, present) ↦
        (key, present, ground (arith, eq_iff key ""), ground (arith, eq_iff key ""))
  ]

  load_keys_other :
      (k : String) (ts : List ToolConfig) (m keys : Dict String)
      → All (λ u. u.key ≢ k) ts
      → load_keys_from env ts m ≡ ok keys
      → get k keys ≡ get k m
  load_keys_other k [] m keys h e = ap (get k) (unfold load_keys_from in cc)
  load_keys_other k (t ∷ ts) m keys (ne, h) e =
      let (key, _, _, rest) = load_keys_step t ts m keys e in
      load_keys_other k ts (set t.key key m) keys h rest
      ∙ ground (arith, get-set t.key k key m, eq_iff t.key k)

  load_keys_from-IsLoaded :
      (ts : List ToolConfig) (m keys : Dict String)
      → DistinctKeys ts
      → load_keys_from env ts m ≡ ok keys
      → All (IsLoaded keys) ts
  load_keys_from-IsLoaded [] m keys d e = tt
  load_keys_from-IsLoaded (t ∷ ts) m keys (ne, d) e =
      let (key, present, filled, rest) = load_keys_step t ts m keys e in
      (
        (
          key,
          present,
          filled,
          load_keys_other t.key ts (set t.key key m) keys ne rest
              ∙ ground (arith, get-set t.key t.key key m, eq_refl t.key),
        ),
        load_keys_from-IsLoaded ts (set t.key key m) keys d rest,
      )

  -- When the loader succeeds on tools with distinct keys, every tool has the value of its
  -- environment variable as its key, and that value is not empty.
  pub load_keys_from_env-IsLoaded :
      (ts : List ToolConfig) (keys : Dict String)
      → DistinctKeys ts
      → load_keys_from_env env ts ≡ ok keys
      → All (IsLoaded keys) ts
  unfolding load_keys_from_env
  load_keys_from_env-IsLoaded ts keys d e = load_keys_from-IsLoaded ts [] keys d e
