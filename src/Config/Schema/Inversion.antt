-- ===== src/Config/Schema/Inversion.antt =====
-- What the results of the combinators of the schema satisfy (src/config/schema.ts).
use zuul_proxy.Prelude.{
  ℕ, ◌≤◌, String, ◌≡◌, ◌≢◌, refl, List, [], ◌∷◌, Option, none, some, All, arith, ◌==◌, eq_iff,
  if◌then◌else◌,
}
use zuul_proxy.Prelude.Number.{int, pos, negsuc, nan}
use zuul_proxy.Prelude.Json.{Json, Items, null, bool, fraction, number, text, arr, obj, nil, cons}
use zuul_proxy.Config.Schema.{
  ◌>>=◌, text_of, filled, parse_items, array_of, non_empty, in_range, or_default,
}

-- A bound computation that gives a value had one to go on with.
pub >>=-some :
    {A B : Type 0} (m : Option A) (f : A → Option B) (b : B)
    → (m >>= f) ≡ some b
    → (a : A) × (m ≡ some a) × (f a ≡ some b)
>>=-some none f b e = cc
>>=-some (some a) f b e = (a, refl, e)

-- What holds of every result of a bound computation, and of one that is given.
pub after :
    {A B : Type 0} (P : B → Type 0) (m : Option A) (f : A → Option B)
    → ((a : A) → m ≡ some a → (b : B) → f a ≡ some b → P b)
    → (b : B) → (m >>= f) ≡ some b
    → P b
after P none f each b e = cc
after P (some a) f each b e = each a refl b e

pub built : {B : Type 0} (P : B → Type 0) (a : B) → P a → (b : B) → some a ≡ some b → P b
built P a h b e = let same : a ≡ b = cc in rw (← same) h

pub in_range_lem :
    (low high n : ℕ) (v : Option Json) → in_range low high v ≡ some n → (low ≤ n) × (n ≤ high)
in_range_lem low high n (some (number (int (pos m)))) e = ground arith
in_range_lem low high n (some (number (int (negsuc m)))) e = cc
in_range_lem low high n (some (number nan)) e = cc
in_range_lem low high n none e = cc
in_range_lem low high n (some null) e = cc
in_range_lem low high n (some (bool b)) e = cc
in_range_lem low high n (some (fraction s)) e = cc
in_range_lem low high n (some (text s)) e = cc
in_range_lem low high n (some (arr l)) e = cc
in_range_lem low high n (some (obj fs)) e = cc

pub or_default_lem :
    {A : Type 0} (P : A → Type 0) (d : A) (p : Option Json → Option A)
    → P d
    → ((v : Option Json) (a : A) → p v ≡ some a → P a)
    → (v : Option Json) (a : A) → or_default d p v ≡ some a
    → P a
or_default_lem P d p base each none a e = let same : d ≡ a = cc in rw (← same) base
or_default_lem P d p base each (some v) a e = each (some v) a e

pub filled_lem : (v : Option Json) (s : String) → filled v ≡ some s → s ≢ ""
filled_lem v s e =
    let (t, _, kept) = >>=-some (text_of v) (λ s. if s == "" then none else some s) s e in
    ground (arith, eq_iff t "", kept)

pub non_empty_lem : {A : Type 0} (l m : List A) → non_empty l ≡ some m → (l ≡ m) × (m ≢ [])
non_empty_lem [] m e = cc
non_empty_lem (a ∷ l) m e = let same : a ∷ l ≡ m = cc in (same, rw (← same) (λ empty. cc empty))

pub parse_items-All :
    {A : Type 0} (P : A → Type 0) (p : Json → Option A)
    → ((v : Json) (a : A) → p v ≡ some a → P a)
    → (vs : Items) (l : List A) → parse_items p vs ≡ some l
    → All P l
unfolding parse_items
parse_items-All P p each nil l e = let same : [] ≡ l = cc in rw (← same) tt
parse_items-All P p each (cons v vs) l e =
    let (a, this, others) = >>=-some (p v) (λ a. parse_items p vs >>= λ l. some (a ∷ l)) l e in
    let (m, rest, built) = >>=-some (parse_items p vs) (λ l. some (a ∷ l)) l others in
    let same : a ∷ m ≡ l = cc built in
    rw (← same) (each v a this, parse_items-All P p each vs m rest)

pub array_of-All :
    {A : Type 0} (P : A → Type 0) (p : Json → Option A)
    → ((v : Json) (a : A) → p v ≡ some a → P a)
    → (v : Option Json) (l : List A) → array_of p v ≡ some l
    → All P l
array_of-All P p each (some (arr vs)) l e = parse_items-All P p each vs l e
array_of-All P p each none l e = cc
array_of-All P p each (some null) l e = cc
array_of-All P p each (some (bool b)) l e = cc
array_of-All P p each (some (number n)) l e = cc
array_of-All P p each (some (fraction s)) l e = cc
array_of-All P p each (some (text s)) l e = cc
array_of-All P p each (some (obj fs)) l e = cc
