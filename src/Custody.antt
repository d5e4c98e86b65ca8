-- ===== src/Custody.antt =====
-- src/custody/key-vault.ts and key-loader.ts: API keys behind handles. A `throw` is the error's
-- message.
pub mod Handles
use Prim.Native.Char.{Char, code}
use Prim.Native.String
use zuul_proxy.Prelude.{
  ℕ, String, Bool, ◌||◌, not, List, [], ◌∷◌, Option, none, some, eqb, ◌==◌, if◌then◌else◌,
}
use zuul_proxy.Prelude.Dict.{Dict, get, has, set}
use zuul_proxy.Prelude.Text.{concat}
use zuul_proxy.Types.{Result, ok, err, text}
use zuul_proxy.Errors.{ZuulError, new_service_error, minus}
use zuul_proxy.Config.{ToolConfig}

-- The constructor keeps the map of keys.
pub record KeyVault : Type 0 where
  pub keys : Dict String

-- Puts a character before the first piece.
abbrev cons_head : Char → List String → List String
cons_head c [] = String.◌∷◌ c "" ∷ []
cons_head c (x ∷ xs) = String.◌∷◌ c x ∷ xs

-- `s.split(':')`
unfoldable pub split_colon : String → List String
split_colon String.[] = "" ∷ []
split_colon (String.◌∷◌ c s) =
    let rest = split_colon s in if eqb (code c) b':' then "" ∷ rest else cons_head c rest

unfoldable pub get_key : String → KeyVault → Result ZuulError String
unfolding new_service_error
get_key tool v =
    if not (has tool v.keys)
    then err (
        new_service_error (concat "API key not available for tool: " tool) (minus 32603) 500
          "internal/error"
          (("tool_key", text tool) ∷ ("reason", text "Key not loaded at startup") ∷ []))
    else ok (concat "vault:" tool)

-- `!key` holds of a missing key and of the empty text.
abbrev find_key : Option String → String → Result String String
find_key none tool = err (concat "Key not found in vault: " tool)
find_key (some key) tool =
    if key == "" then err (concat "Key not found in vault: " tool) else ok key

-- `const [prefix, toolKeyStr] = pieces` and what follows.
unfoldable pub inject_pieces : List String → KeyVault → Result String String
inject_pieces [] v = err "Invalid key handle: malformed vault handle"
inject_pieces (prefix ∷ []) v = err "Invalid key handle: malformed vault handle"
inject_pieces (prefix ∷ tool ∷ _) v =
    if not (prefix == "vault") || tool == ""
    then err "Invalid key handle: malformed vault handle"
    else find_key (get tool v.keys) tool

unfoldable pub inject : String → KeyVault → Result String String
unfolding split_colon inject_pieces get
inject handle v = inject_pieces (split_colon handle) v

-- `loadKeysFromEnv`; `env` is `process.env`, and `keys` what the loop has set so far.
unfoldable pub load_keys_from :
    (String → Option String) → List ToolConfig → Dict String → Result ZuulError (Dict String)
unfolding new_service_error
load_keys_from env [] keys = ok keys
load_keys_from env (t ∷ ts) keys =
    let missing =
      new_service_error
        (concat "Missing required environment variable: "
          (concat t.key_ref (concat " (for tool: " (concat t.key ")"))))
        (minus 32603) 500 "internal/error"
        (("missing_env_var", text t.key_ref) ∷ ("tool_key", text t.key) ∷ []) in
    elim (env t.key_ref) [
      | none ↦ err missing
      | some key ↦ if key == "" then err missing else load_keys_from env ts (set t.key key keys)
    ]

unfoldable pub load_keys_from_env :
    (String → Option String) → List ToolConfig → Result ZuulError (Dict String)
unfolding load_keys_from
load_keys_from_env env tools = load_keys_from env tools []
