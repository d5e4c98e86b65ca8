-- ===== src/Config/Loader/Substitution.antt =====
-- What the substitution of variables makes of a text (src/config/loader.ts).
use Prim.Native.Char.{code}
use zuul_proxy.Prelude.{String, ◌≡◌, ◌≢◌, refl, ◌∙◌, ap, sym, true, false, Option, eqb}
use zuul_proxy.Prelude.Text.{concat}
use zuul_proxy.Types.{Result, ok, err}
use zuul_proxy.Config.Loader.{plain, name, is_name, prefix, single, value_before, scan}

-- No `$`.
abbrev pub IsPlain : String → Type 0
IsPlain String.[] = Unit
IsPlain (String.◌∷◌ c s) = (eqb (code c) b'$' ≡ false) × IsPlain s

-- The rest of a name, after a start of it.
abbrev pub IsRest : String → String → Type 0
IsRest acc String.[] = Unit
IsRest acc (String.◌∷◌ c s) = (is_name acc c ≡ true) × IsRest (concat acc (single c)) s

concat_assoc : (p q s : String) → concat p (concat q s) ≡ concat (concat p q) s
concat_assoc String.[] q s = refl
concat_assoc (String.◌∷◌ c p) q s = ap (String.◌∷◌ c) (concat_assoc p q s)

prefix-prefix :
    (p q : String) (r : Result String String) → prefix p (prefix q r) ≡ prefix (concat p q) r
prefix-prefix p q (err e) = refl
prefix-prefix p q (ok s) = ap ok (concat_assoc p q s)

concat_empty : (s : String) → s ≡ concat s ""
concat_empty String.[] = refl
concat_empty (String.◌∷◌ c s) = ap (String.◌∷◌ c) (concat_empty s)

prefix_empty : (r : Result String String) → r ≡ prefix "" r
prefix_empty (err e) = refl
prefix_empty (ok s) = refl

module _ (env : String → Option String) where
  scan-plain :
      (pre s : String) → IsPlain pre → scan env plain (concat pre s) ≡ prefix pre (scan env plain s)
  unfolding scan
  scan-plain String.[] s h = prefix_empty (scan env plain s)
  scan-plain (String.◌∷◌ c pre) s (h, hs) =
      rw (h, scan-plain pre s hs) (prefix-prefix (single c) pre (scan env plain s))

  pub scan-name :
      (acc rest s : String)
      → IsRest acc rest
      → scan env (name acc) (concat rest s) ≡ scan env (name (concat acc rest)) s
  unfolding scan
  scan-name acc String.[] s h = ap (λ a. scan env (name a) s) (concat_empty acc)
  scan-name acc (String.◌∷◌ c rest) s (h, hs) = rw (h) (
      scan-name (concat acc (single c)) rest s hs
      ∙ ap (λ a. scan env (name a) s) (sym (concat_assoc acc (single c) rest)))

  pub scan_closed :
      (var_name s : String)
      → var_name ≢ ""
      → scan env (name var_name) (concat "}" s) ≡ value_before env var_name (scan env plain s)
  unfolding scan is_name
  scan_closed String.[] s h = absurd (h refl)
  scan_closed (String.◌∷◌ c acc) s h = refl

  -- A reference to a variable in a text, after characters of which none is a dollar sign, is
  -- replaced by the value of the variable, which is not searched again, and the search goes on
  -- after the closing brace; a variable that is not set is the error that names it.
  pub scan-value_before :
      (pre var_name post : String)
      → IsPlain pre
      → IsRest "" var_name
      → var_name ≢ ""
      → scan env plain (concat pre (concat "${" (concat var_name (concat "}" post))))
        ≡ prefix pre (value_before env var_name (scan env plain post))
  unfolding scan
  scan-value_before pre var_name post clear named filled =
      scan-plain pre (concat "${" (concat var_name (concat "}" post))) clear
      ∙ ap (prefix pre)
          (scan-name "" var_name (concat "}" post) named ∙ scan_closed var_name post filled)
