-- ===== src/Tests/Custody.antt =====
-- Handles and keys at a concrete vault.
use zuul_proxy.Prelude.{String, ◌≡◌, refl, ◌∷◌, [], Option, some, arith}
use zuul_proxy.Prelude.Dict.{Dict, get}
use zuul_proxy.Types.{ok}
use zuul_proxy.Custody.{KeyVault, get_key, inject}
use zuul_proxy.Custody.Handles.{inject-get_key}

abbrev vault : KeyVault
vault = record { keys = ("a", "ka") ∷ ("a:b", "kb") ∷ [] }

inject-get_key_example : (h : String) × (get_key "a" vault ≡ ok h) × (inject h vault ≡ ok "ka")
unfolding get
inject-get_key_example =
    inject-get_key "a" "ka" vault ((λ h. absurd (omega arith)), tt) (λ h. absurd (cc))
      (λ h. absurd (cc)) refl

abbrev env : String → Option String
env _ = some "k"

abbrev keys : Dict String
keys = ("github", "k") ∷ ("repos", "k") ∷ []
