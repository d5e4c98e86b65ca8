-- ===== src/Config/Loader/Loaded.antt =====
-- What the loading of a configuration promises (src/config/loader.ts, src/config/schema.ts).
use zuul_proxy.Prelude.{String, ◌≡◌, ◌↔◌, refl, Bool, Option, some, Option-cases, inl, inr}
use zuul_proxy.Prelude.Json.{Json}
use zuul_proxy.Types.{Result, ok, Result-cases}
use zuul_proxy.Config.{AppConfig}
use zuul_proxy.Config.Schema.{validate_config}
use zuul_proxy.Config.Schema.Whole.{IsConfig, validate_config-IsConfig}
use zuul_proxy.Config.Loader.Variables.{IsFilledIn, substitute_env_vars-IsFilledIn}
use zuul_proxy.Config.Loader.{substitute_env_vars, validated, substituted, attempted, load_config}

module _ (env : String → Option String) (is_url : String → Bool) (issues : Json → String)
    (read_file : String → Result String String) (parse_yaml : String → Result String Json)
    (path : String) where
  -- The way from the file to a configuration.
  pub record IsLoaded (c : AppConfig) : Type 0 where
    pub content : String
    pub read : read_file path ≡ ok content
    pub document : Json
    pub parsed : parse_yaml content ≡ ok document
    pub filled : Json
    pub replaced : substitute_env_vars env document ≡ ok filled
    pub valid : validate_config is_url env filled ≡ some c
    pub set : IsFilledIn env document
    pub good : IsConfig is_url env c

  attempted_ok :
      (c : AppConfig) → attempted env is_url issues read_file parse_yaml path ≡ ok c → IsLoaded c
  attempted_ok c e = elim (Result-cases (read_file path)) [
    | inr (m, failed) ↦ absurd (cc (rw (failed, attempted) at e))
    | inl (content, read) ↦ elim (Result-cases (parse_yaml content)) [
      | inr (m, failed) ↦ absurd (cc (rw (read, failed, attempted) at e))
      | inl (document, parsed) ↦ elim (Result-cases (substitute_env_vars env document)) [
        | inr (m, failed) ↦ absurd (cc (rw (read, parsed, failed, attempted, substituted) at e))
        | inl (filled, replaced) ↦ elim (Option-cases (validate_config is_url env filled)) [
          | inl bad ↦
              absurd (cc (rw (read, parsed, replaced, bad, attempted, substituted, validated) at e))
          | inr (d, valid) ↦
              let same : some d ≡ some c =
                cc (rw (read, parsed, replaced, valid, attempted, substituted, validated) at e) in
              let valid' : validate_config is_url env filled ≡ some c = cc in
              record {
                content = content;
                read = read;
                document = document;
                parsed = parsed;
                filled = filled;
                replaced = replaced;
                valid = valid';
                set = substitute_env_vars-IsFilledIn env document filled replaced;
                good = validate_config-IsConfig is_url env filled c valid';
              }
        ]
      ]
    ]
  ]

  -- Loading gives a configuration exactly if the file is read and parsed, the substitution of the
  -- variables succeeds, and the schema accepts what it leaves; then every reference to a variable,
  -- wherever it stands in a text of the document, is to one that is set, and the configuration has
  -- what the schema promises.
  pub load_config_ok_iff :
      (c : AppConfig)
      → (load_config env is_url issues read_file parse_yaml path ≡ ok c) ↔ IsLoaded c
  unfolding load_config
  load_config_ok_iff c = (
    λ e. elim (Result-cases (attempted env is_url issues read_file parse_yaml path)) [
      | inr (m, failed) ↦ absurd (cc (rw (failed, load_config) at e))
      | inl (d, done) ↦ attempted_ok c (cc (done, rw (done, load_config) at e))
    ],
    λ l.
        rw (l.read, l.parsed, l.replaced, l.valid, load_config, attempted, substituted, validated)
          refl,
  )
