-- ===== src/Auth/Payload.antt =====
-- What the signed text of a request says (src/auth/signature.ts).
use zuul_proxy.Prelude.{
  ℕ, ◌+◌, ◌≤◌, String, ◌≡◌, ◌≢◌, refl, sym, ap, ◌∙◌, [], ◌∷◌, ◌++◌, ◌⊎◌, inl, inr, All, All-map,
  arith,
}
use mathlib.Core.List.{append_assoc}
use zuul_proxy.Prelude.Number.{Number, nan, int, pos, negsuc}
use zuul_proxy.Prelude.Text.{codes, codes_injective, decimal}
use zuul_proxy.Prelude.Text.Decimal.{decimal_injective, IsDigit, decimal-IsDigit}
use zuul_proxy.Auth.Signature.{Payload, number_text, build_canonical_payload}

-- A text without the newline that separates the fields.
abbrev pub IsLine : Payload → Type 0
IsLine l = All (λ c. c ≢ b'\n') l

-- The first newline ends the first field.
split_first :
    (a b x y : Payload) → IsLine a → IsLine b → a ++ b'\n' ∷ x ≡ b ++ b'\n' ∷ y → (a ≡ b) × (x ≡ y)
split_first [] [] x y ha hb e = (refl, cc)
split_first [] (d ∷ b) x y ha (hd, hb) e = absurd (hd (cc))
split_first (c ∷ a) [] x y (hc, ha) hb e = absurd (hc (cc))
split_first (c ∷ a) (d ∷ b) x y (hc, ha) (hd, hb) e =
    let (same, rest) = split_first a b x y ha hb (cc) in (cc (same, e), rest)

-- A text with a newline in it is no line.
no_line : (a x : Payload) → IsLine (a ++ b'\n' ∷ x) → ⊥
no_line [] x (h, k) = h refl
no_line (c ∷ a) x (h, k) = no_line a x k

-- The last newline begins the last field.
split_last :
    (a b x y : Payload) → IsLine x → IsLine y → a ++ b'\n' ∷ x ≡ b ++ b'\n' ∷ y → (a ≡ b) × (x ≡ y)
split_last [] [] x y hx hy e = (refl, cc)
split_last [] (d ∷ b) x y hx hy e =
    let same : x ≡ b ++ b'\n' ∷ y = cc in absurd (no_line b y (rw (same) at hx))
split_last (c ∷ a) [] x y hx hy e =
    let same : y ≡ a ++ b'\n' ∷ x = cc in absurd (no_line a x (rw (same) at hy))
split_last (c ∷ a) (d ∷ b) x y hx hy e =
    let (same, rest) = split_last a b x y hx hy (cc) in (cc (same, e), rest)

decimal-IsLine : (n : ℕ) → IsLine (decimal n)
decimal-IsLine n =
    All-map IsDigit (λ c. c ≢ b'\n') (λ c h. omega arith) (decimal n) (decimal-IsDigit n)

number_text-IsLine : (t : Number) → IsLine (number_text t)
unfolding number_text
number_text-IsLine nan = (omega arith, (omega arith, (omega arith, tt)))
number_text-IsLine (int (pos n)) = decimal-IsLine n
number_text-IsLine (int (negsuc n)) = (omega arith, decimal-IsLine (n + 1))

-- A text of digits does not begin with another character.
not_digits : (n c : ℕ) (s : Payload) → (c ≤ 47) ⊎ (58 ≤ c) → decimal n ≡ c ∷ s → ⊥
not_digits n c s other e =
    let digits : All IsDigit (c ∷ s) = rw (e) at (decimal-IsDigit n) in omega arith

other_head : (c d : ℕ) (s t : Payload) → c ≢ d → c ∷ s ≡ d ∷ t → ⊥
other_head c d s t other e = other (cc)

number_text_injective : (t u : Number) → number_text t ≡ number_text u → t ≡ u
unfolding number_text
number_text_injective nan nan e = refl
number_text_injective nan (int (pos n)) e = absurd (not_digits n b'N' _ (inr (omega arith)) (sym e))
number_text_injective nan (int (negsuc n)) e = absurd (other_head b'N' b'-' _ _ (omega arith) e)
number_text_injective (int (pos m)) nan e = absurd (not_digits m b'N' _ (inr (omega arith)) e)
number_text_injective (int (pos m)) (int (pos n)) e =
    ap (λ k. int (pos k)) (decimal_injective m n e)
number_text_injective (int (pos m)) (int (negsuc n)) e =
    absurd (not_digits m b'-' _ (inl (omega arith)) e)
number_text_injective (int (negsuc m)) nan e = absurd (other_head b'-' b'N' _ _ (omega arith) e)
number_text_injective (int (negsuc m)) (int (pos n)) e =
    absurd (not_digits n b'-' _ (inl (omega arith)) (sym e))
number_text_injective (int (negsuc m)) (int (negsuc n)) e =
    let same : m + 1 ≡ n + 1 = decimal_injective (m + 1) (n + 1) (cc) in
    ap (λ k. int (negsuc k)) (omega arith)

-- The last of the four fields, regrouped.
regroup : (a b c : Payload) → a ++ b'\n' ∷ (b ++ b'\n' ∷ c) ≡ (a ++ b'\n' ∷ b) ++ b'\n' ∷ c
regroup a b c = sym (append_assoc a (b'\n' ∷ b) (b'\n' ∷ c))

-- Requests with the same signed text have the same method, target URL, nonce and timestamp, where
-- neither method nor nonce holds a newline; the URL may hold some.
pub build_canonical_payload_injective :
    (method url nonce : String) (t : Number) (method' url' nonce' : String) (t' : Number)
    → IsLine (codes method)
    → IsLine (codes method')
    → IsLine (codes nonce)
    → IsLine (codes nonce')
    → build_canonical_payload method url nonce t ≡ build_canonical_payload method' url' nonce' t'
    → (method ≡ method') × (url ≡ url') × (nonce ≡ nonce') × (t ≡ t')
unfolding build_canonical_payload
build_canonical_payload_injective method url nonce t method' url' nonce' t' hm hm' hn hn' e =
    let (same_method, rest) = split_first (codes method) (codes method') _ _ hm hm' e in
    let u = codes url in
    let u' = codes url' in
    let n = codes nonce in
    let n' = codes nonce' in
    let grouped : (u ++ b'\n' ∷ n) ++ b'\n' ∷ number_text t
        ≡ (u' ++ b'\n' ∷ n') ++ b'\n' ∷ number_text t' =
      sym (regroup u n (number_text t)) ∙ rest ∙ regroup u' n' (number_text t') in
    let (front, same_time) =
      split_last (u ++ b'\n' ∷ n) (u' ++ b'\n' ∷ n') (number_text t) (number_text t')
        (number_text-IsLine t) (number_text-IsLine t') grouped in
    let (same_url, same_nonce) = split_last u u' n n' hn hn' front in
    (
      codes_injective method method' same_method,
      codes_injective url url' same_url,
      codes_injective nonce nonce' same_nonce,
      number_text_injective t t' same_time,
    )
