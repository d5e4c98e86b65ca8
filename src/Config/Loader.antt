-- ===== src/Config/Loader.antt =====
-- src/config/loader.ts: the variables of the environment in the configuration, and its loading.
-- `env` is `process.env`; `read_file` and `parse_yaml` are the reader and the YAML parser, with the
-- message of what they throw, and `issues` is the message of zod's error. No object has a field
-- `__proto__`.
pub mod Substitution
pub mod Variables
pub mod Loaded
use Prim.Native.Char.{Char, code}
use zuul_proxy.Prelude.{
  String, Bool, true, false, ◌&&◌, ◌||◌, not, [], ◌∷◌, Option, none, some, eqb, if◌then◌else◌,
}
use zuul_proxy.Prelude.Text.{concat, between, is_digit}
use zuul_proxy.Prelude.Json.{
  Json, Items, Fields, null, bool, number, fraction, text, arr, obj, nil, cons, end, field,
}
use zuul_proxy.Types.{Result, ok, err}
use zuul_proxy.Config.{AppConfig}
use zuul_proxy.Config.Schema.{validate_config}

-- Where the search for `${NAME}` stands: outside, after `$`, or after `${` and the start of a name.
pub data Scan : Type 0 where
  plain dollar : Scan
  name : String → Scan

-- `[A-Z_]` for the first character of a name, and `[A-Z0-9_]` for the others.
unfoldable pub is_name : String → Char → Bool
is_name String.[] c = between b'A' b'Z' (code c) || eqb (code c) b'_'
is_name (String.◌∷◌ d acc) c =
    between b'A' b'Z' (code c) || (is_digit (code c) || eqb (code c) b'_')

abbrev pub prefix : {E : Type 0} → String → Result E String → Result E String
prefix p (err e) = err e
prefix p (ok s) = ok (concat p s)

-- A function of one value, or of two, of which the first that throws ends the evaluation.
abbrev pub apply : {A B : Type 0} → (A → B) → Result String A → Result String B
apply f (err e) = err e
apply f (ok a) = ok (f a)

abbrev pub apply_two :
    {A B C : Type 0} → (A → B → C) → Result String A → Result String B → Result String C
apply_two f (err e) s = err e
apply_two f (ok a) s = apply (f a) s

abbrev pub single : Char → String
single c = String.◌∷◌ c ""

abbrev pub is_blank : String → Bool
is_blank String.[] = true
is_blank (String.◌∷◌ c s) = false

abbrev pub missing : String → String
missing var_name =
    concat "Environment variable " (concat var_name " not found (referenced in config)")

module _ (env : String → Option String) where
  abbrev pub value_before : String → Result String String → Result String String
  value_before var_name rest = elim (env var_name) [
    | none ↦ err (missing var_name)
    | some value ↦ prefix value rest
  ]

  -- `obj.replace(/\$\{([A-Z_][A-Z0-9_]*)\}/g, ...)`, from left to right.
  unfoldable pub scan : Scan → String → Result String String
  unfolding is_name
  scan plain String.[] = ok ""
  scan dollar String.[] = ok "$"
  scan (name acc) String.[] = ok (concat "${" acc)
  scan plain (String.◌∷◌ c s) =
      if eqb (code c) b'$' then scan dollar s else prefix (single c) (scan plain s)
  scan dollar (String.◌∷◌ c s) =
      if eqb (code c) b'{'
      then scan (name "") s
      else if eqb (code c) b'$'
      then prefix "$" (scan dollar s)
      else prefix (concat "$" (single c)) (scan plain s)
  scan (name acc) (String.◌∷◌ c s) =
      if is_name acc c
      then scan (name (concat acc (single c))) s
      else if eqb (code c) b'}' && not (is_blank acc)
      then value_before acc (scan plain s)
      else if eqb (code c) b'$'
      then prefix (concat "${" acc) (scan dollar s)
      else prefix (concat "${" (concat acc (single c))) (scan plain s)

  -- `substituteEnvVars`; an `err` is the message of what it throws.
  unfoldable mutual
    unfolding scan

    pub substitute_env_vars : Json → Result String Json
    substitute_env_vars (text s) = apply text (scan plain s)
    substitute_env_vars (arr vs) = apply arr (substitute_items vs)
    substitute_env_vars (obj fs) = apply obj (substitute_fields fs)
    substitute_env_vars null = ok null
    substitute_env_vars (bool b) = ok (bool b)
    substitute_env_vars (number n) = ok (number n)
    substitute_env_vars (fraction s) = ok (fraction s)

    pub substitute_items : Items → Result String Items
    substitute_items nil = ok nil
    substitute_items (cons v vs) = apply_two cons (substitute_env_vars v) (substitute_items vs)

    pub substitute_fields : Fields → Result String Fields
    substitute_fields end = ok end
    substitute_fields (field k v fs) =
        apply_two (field k) (substitute_env_vars v) (substitute_fields fs)

  module _ (is_url : String → Bool) (issues : Json → String) where
    abbrev pub validated : Json → Result String AppConfig
    validated v = elim (validate_config is_url env v) [ none ↦ err (issues v) | some c ↦ ok c ]

    abbrev pub substituted : Json → Result String AppConfig
    substituted v = elim (substitute_env_vars v) [ err e ↦ err e | ok w ↦ validated w ]

    -- The `try` of `loadConfig`.
    abbrev pub attempted :
        (String → Result String String)
        → (String → Result String Json)
        → String
        → Result String AppConfig
    attempted read_file parse_yaml file_path = elim (read_file file_path) [
      | err e ↦ err e
      | ok content ↦ elim (parse_yaml content) [ err e ↦ err e | ok v ↦ substituted v ]
    ]

    abbrev failed : String → String → String
    failed file_path e = concat "Failed to load config from " (concat file_path (concat ": " e))

    unfoldable pub load_config :
        (String → Result String String)
        → (String → Result String Json)
        → String
        → Result String AppConfig
    unfolding substitute_env_vars validate_config
    load_config read_file parse_yaml file_path = elim (attempted read_file parse_yaml file_path) [
      | err e ↦ err (failed file_path e)
      | ok c ↦ ok c
    ]

    unfoldable pub load_config_default :
        (String → Result String String) → (String → Result String Json) → Result String AppConfig
    unfolding load_config
    load_config_default read_file parse_yaml = load_config read_file parse_yaml "./config.yaml"
