-- ===== src/Proxy/Registry/Sorting.antt =====
-- The order of the registry's base URLs (src/proxy/tool-registry.ts).
use zuul_proxy.Prelude.{
  ◌≤◌, ◌⊎◌, inl, inr, List, [], ◌∷◌, ltb, arith, All, Any, All-map, Bool-cases,
}
use zuul_proxy.Prelude.Text.{js_length}
use zuul_proxy.Proxy.Registry.{Entry, insert, sort}

-- The first entry is at least as long as each later one, and so on.
abbrev pub IsSorted : List Entry → Type 0
IsSorted [] = Unit
IsSorted (e ∷ l) = All (λ f. js_length f.0 ≤ js_length e.0) l × IsSorted l

module _ (P : Entry → Type 0) where
  All-insert : (e : Entry) (l : List Entry) → P e → All P l → All P (insert e l)
  unfolding insert
  All-insert e [] p h = (p, tt)
  All-insert e (f ∷ l) p (q, h) = ground (arith, All-insert e l p h)

  pub All-sort : (l : List Entry) → All P l → All P (sort l)
  unfolding sort
  All-sort [] h = tt
  All-sort (e ∷ l) (p, h) = All-insert e (sort l) p (All-sort l h)

  All-of_insert : (e : Entry) (l : List Entry) → All P (insert e l) → P e × All P l
  unfolding insert
  All-of_insert e [] h = h
  All-of_insert e (f ∷ l) h = elim (Bool-cases (ltb (js_length e.0) (js_length f.0))) [
    | inl later ↦
        let k : P f × All P (insert e l) = rw later at h in
        let (p, rest) = All-of_insert e l k.1 in (p, (k.0, rest))
    | inr here ↦ let k : P e × (P f × All P l) = rw here at h in k
  ]

  pub All-of_sort : (l : List Entry) → All P (sort l) → All P l
  unfolding sort
  All-of_sort [] h = tt
  All-of_sort (e ∷ l) h = let (p, rest) = All-of_insert e (sort l) h in (p, All-of_sort l rest)

  Any-of_insert : (e : Entry) (l : List Entry) → Any P (insert e l) → P e ⊎ Any P l
  unfolding insert
  Any-of_insert e [] h = h
  Any-of_insert e (f ∷ l) h = elim (Bool-cases (ltb (js_length e.0) (js_length f.0))) [
    | inl later ↦
        let k : P f ⊎ Any P (insert e l) = rw later at h in
        elim k [
          | inl q ↦ inr (inl q)
          | inr rest ↦ elim (Any-of_insert e l rest) [ inl p ↦ inl p | inr m ↦ inr (inr m) ]
        ]
    | inr here ↦ rw here at h
  ]

  pub Any-of_sort : (l : List Entry) → Any P (sort l) → Any P l
  unfolding sort
  Any-of_sort [] h = h
  Any-of_sort (e ∷ l) h = elim (Any-of_insert e (sort l) h) [
    | inl p ↦ inl p
    | inr rest ↦ inr (Any-of_sort l rest)
  ]

insert-IsSorted : (e : Entry) (l : List Entry) → IsSorted l → IsSorted (insert e l)
unfolding insert
insert-IsSorted e [] h = (tt, tt)
insert-IsSorted e (f ∷ l) (longest, h) = elim (Bool-cases (ltb (js_length e.0) (js_length f.0))) [
  | inl later ↦ rw later (
    All-insert (λ g. js_length g.0 ≤ js_length f.0) e l (ground arith) longest,
    insert-IsSorted e l h,
  )
  | inr here ↦
      let le : js_length f.0 ≤ js_length e.0 = ground arith in
      rw here ((le, All-map _ _ (λ g k. omega arith) l longest), (longest, h))
]

pub sort-IsSorted : (l : List Entry) → IsSorted (sort l)
unfolding sort
sort-IsSorted [] = tt
sort-IsSorted (e ∷ l) = insert-IsSorted e (sort l) (sort-IsSorted l)
