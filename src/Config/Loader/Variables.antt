-- ===== src/Config/Loader/Variables.antt =====
-- A configuration whose variables are substituted names none that is not set
-- (src/config/loader.ts).
use Prim.Native.Char.{Char, code}
use zuul_proxy.Prelude.{
  String, ◌≡◌, ◌≢◌, refl, Option, some, ◌&&◌, not, eqb, Bool-cases, Option-cases, inl, inr,
}
use zuul_proxy.Prelude.Text.{concat}
use zuul_proxy.Prelude.Json.{
  Json, Items, Fields, null, bool, number, fraction, text, arr, obj, nil, cons, end, field,
}
use zuul_proxy.Types.{Result, ok, err}
use zuul_proxy.Config.Loader.{
  Scan, plain, dollar, name, is_name, is_blank, prefix, apply, apply_two, single, value_before,
  scan, substitute_env_vars, substitute_items, substitute_fields,
}
use zuul_proxy.Config.Loader.Substitution.{IsRest, scan-name, scan_closed}

apply_ok :
    {A B : Type 0} (f : A → B) (r : Result String A) (b : B)
    → apply f r ≡ ok b
    → (a : A) × (r ≡ ok a)
apply_ok f (err e) b h = absurd (cc)
apply_ok f (ok a) b h = (a, refl)

apply_two_ok :
    {A B C : Type 0} (f : A → B → C) (r : Result String A) (s : Result String B) (c : C)
    → apply_two f r s ≡ ok c
    → ((a : A) × (r ≡ ok a)) × ((b : B) × (s ≡ ok b))
apply_two_ok f (err e) s c h = absurd (cc)
apply_two_ok f (ok a) s c h = ((a, refl), apply_ok (f a) s c h)

module _ (env : String → Option String) where
  -- Every reference `${NAME}` in the text, wherever it stands, is to a variable that is set.
  abbrev pub IsFilled : String → Type 0
  IsFilled s =
      (pre var_name post : String)
      → s ≡ concat pre (concat "${" (concat var_name (concat "}" post)))
      → IsRest "" var_name
      → var_name ≢ ""
      → (value : String) × (env var_name ≡ some value)

  -- Every text in the document.
  mutual
    pub IsFilledIn : Json → Type 0
    IsFilledIn null = Unit
    IsFilledIn (bool b) = Unit
    IsFilledIn (number n) = Unit
    IsFilledIn (fraction s) = Unit
    IsFilledIn (text s) = IsFilled s
    IsFilledIn (arr vs) = AreFilledIn vs
    IsFilledIn (obj fs) = AreFilledInFields fs

    pub AreFilledIn : Items → Type 0
    AreFilledIn nil = Unit
    AreFilledIn (cons v vs) = IsFilledIn v × AreFilledIn vs

    pub AreFilledInFields : Fields → Type 0
    AreFilledInFields end = Unit
    AreFilledInFields (field k v fs) = IsFilledIn v × AreFilledInFields fs

  -- The scan of a text succeeds.
  Succeeds : Scan → String → Type 0
  Succeeds st s = (t : String) × (scan env st s ≡ ok t)

  prefix_ok :
      (p : String) (r : Result String String) (t : String)
      → prefix p r ≡ ok t
      → (u : String) × (r ≡ ok u)
  prefix_ok p (err e) t h = absurd (cc)
  prefix_ok p (ok u) t h = (u, refl)

  value_before_ok :
      (var_name : String) (r : Result String String) (t : String)
      → value_before env var_name r ≡ ok t
      → ((value : String) × (env var_name ≡ some value)) × ((u : String) × (r ≡ ok u))
  value_before_ok var_name r t h = elim (Option-cases (env var_name)) [
    | inl unset ↦ absurd (cc (rw (unset, value_before) at h))
    | inr (value, found) ↦ ((value, found), prefix_ok value r t (rw (found, value_before) at h))
  ]

  -- A `$` begins anew, wherever the search stands.
  scan-dollar : (st : Scan) (s : String) → Succeeds st (concat "$" s) → Succeeds dollar s
  unfolding scan Succeeds is_name
  scan-dollar plain s h = h
  scan-dollar dollar s (t, h) = prefix_ok "$" (scan env dollar s) t h
  scan-dollar (name String.[]) s (t, h) = prefix_ok "${" (scan env dollar s) t h
  scan-dollar (name (String.◌∷◌ c acc)) s (t, h) =
      prefix_ok (concat "${" (String.◌∷◌ c acc)) (scan env dollar s) t h

  -- After one character the search of the rest succeeds.
  scan-next :
      (st : Scan) (c : Char) (s : String)
      → Succeeds st (String.◌∷◌ c s)
      → (next : Scan) × Succeeds next s
  unfolding scan Succeeds
  scan-next plain c s (t, h) = elim (Bool-cases (eqb (code c) b'$')) [
    | inl d ↦ (dollar, (t, rw (d, scan) at h))
    | inr e ↦ (plain, prefix_ok (single c) (scan env plain s) t (rw (e, scan) at h))
  ]
  scan-next dollar c s (t, h) = elim (Bool-cases (eqb (code c) b'{')) [
    | inl o ↦ (name "", (t, rw (o, scan) at h))
    | inr e ↦ elim (Bool-cases (eqb (code c) b'$')) [
      | inl d ↦ (dollar, prefix_ok "$" (scan env dollar s) t (rw (e, d, scan) at h))
      | inr f ↦
          (plain, prefix_ok (concat "$" (single c)) (scan env plain s) t (rw (e, f, scan) at h))
    ]
  ]
  scan-next (name acc) c s (t, h) = elim (Bool-cases (is_name acc c)) [
    | inl n ↦ (name (concat acc (single c)), (t, rw (n, scan) at h))
    | inr e ↦ elim (Bool-cases (eqb (code c) b'}' && not (is_blank acc))) [
      | inl closed ↦
          (plain, (value_before_ok acc (scan env plain s) t (rw (e, closed, scan) at h)).1)
      | inr f ↦ elim (Bool-cases (eqb (code c) b'$')) [
        | inl d ↦
            (dollar, prefix_ok (concat "${" acc) (scan env dollar s) t (rw (e, f, d, scan) at h))
        | inr g ↦ (
          plain,
          prefix_ok (concat "${" (concat acc (single c))) (scan env plain s) t
              (rw (e, f, g, scan) at h),
        )
      ]
    ]
  ]

  reference_set :
      (st : Scan) (pre var_name post : String)
      → IsRest "" var_name
      → var_name ≢ ""
      → Succeeds st (concat pre (concat "${" (concat var_name (concat "}" post))))
      → (value : String) × (env var_name ≡ some value)
  unfolding scan Succeeds
  reference_set st (String.◌∷◌ c pre) var_name post named filled h =
      let (next, k) =
        scan-next st c (concat pre (concat "${" (concat var_name (concat "}" post)))) h in
      reference_set next pre var_name post named filled k
  reference_set st String.[] var_name post named filled h =
      let (t, begun) = scan-dollar st (concat "{" (concat var_name (concat "}" post))) h in
      let walked : scan env (name "") (concat var_name (concat "}" post))
          ≡ scan env (name var_name) (concat "}" post) =
        scan-name env "" var_name (concat "}" post) named in
      let closed = scan_closed env var_name post filled in
      (value_before_ok var_name (scan env plain post) t (cc)).0

  scan-IsFilled : (s t : String) → scan env plain s ≡ ok t → IsFilled s
  unfolding Succeeds
  scan-IsFilled s t h pre var_name post e named filled =
      reference_set plain pre var_name post named filled (t, rw (e) at h)

  mutual
    unfolding substitute_env_vars IsFilledIn

    pub substitute_env_vars-IsFilledIn :
        (v w : Json) → substitute_env_vars env v ≡ ok w → IsFilledIn v
    substitute_env_vars-IsFilledIn null w h = tt
    substitute_env_vars-IsFilledIn (bool b) w h = tt
    substitute_env_vars-IsFilledIn (number n) w h = tt
    substitute_env_vars-IsFilledIn (fraction s) w h = tt
    substitute_env_vars-IsFilledIn (text s) w h =
        let (t, done) = apply_ok text (scan env plain s) w h in scan-IsFilled s t done
    substitute_env_vars-IsFilledIn (arr vs) w h =
        let (ws, done) = apply_ok arr (substitute_items env vs) w h in items-AreFilledIn vs ws done
    substitute_env_vars-IsFilledIn (obj fs) w h =
        let (gs, done) = apply_ok obj (substitute_fields env fs) w h in
        fields-AreFilledIn fs gs done

    items-AreFilledIn : (vs ws : Items) → substitute_items env vs ≡ ok ws → AreFilledIn vs
    items-AreFilledIn nil ws h = tt
    items-AreFilledIn (cons v vs) ws h =
        let ((w, first), (us, rest)) =
          apply_two_ok cons (substitute_env_vars env v) (substitute_items env vs) ws h in
        (substitute_env_vars-IsFilledIn v w first, items-AreFilledIn vs us rest)

    fields-AreFilledIn : (fs gs : Fields) → substitute_fields env fs ≡ ok gs → AreFilledInFields fs
    fields-AreFilledIn end gs h = tt
    fields-AreFilledIn (field k v fs) gs h =
        let ((w, first), (us, rest)) =
          apply_two_ok (field k) (substitute_env_vars env v) (substitute_fields env fs) gs h in
        (substitute_env_vars-IsFilledIn v w first, fields-AreFilledIn fs us rest)
