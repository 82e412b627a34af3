-- ===== src/Distinct.antt =====
-- What is in a list that is put together from others, and that no value is in it twice.
use reactive_commons_go.Base.{
  ◌≡◌, ◌⊎◌, ◌↔◌, inl, inr, refl, sym, ap, subst, ◌∙◌, Bool, true, false, not, List, [], ◌∷◌, ◌++◌,
  map, In, In-append_left, In-append_right, if◌then◌else◌, arith,
}

pub In-map_iff :
    {A B : Type 0} (f : A → B) (b : B) (xs : List A)
    → In b (map f xs) ↔ ((a : A) × In a xs × (b ≡ f a))
In-map_iff {A} {B} f b xs = (to xs, from xs)
  where
    to : (xs : List A) → In b (map f xs) → (a : A) × In a xs × (b ≡ f a)
    to [] m = absurd m
    to (x ∷ xs) (inl e) = (x, inl refl, e)
    to (x ∷ xs) (inr m) = let (a, i, e) = to xs m in (a, inr i, e)

    from : (xs : List A) → (a : A) × In a xs × (b ≡ f a) → In b (map f xs)
    from [] (a, i, e) = absurd i
    from (x ∷ xs) (a, inl i, e) = inl (e ∙ ap f i)
    from (x ∷ xs) (a, inr i, e) = inr (from xs (a, i, e))

pub In-append_cases : {A : Type 0} (a : A) (xs ys : List A) → In a (xs ++ ys) → In a xs ⊎ In a ys
In-append_cases a [] ys m = inr m
In-append_cases a (x ∷ xs) ys (inl e) = inl (inl e)
In-append_cases a (x ∷ xs) ys (inr m) = elim (In-append_cases a xs ys m) [
  | inl i ↦ inl (inr i)
  | inr i ↦ inr i
]

pub In-append_iff : {A : Type 0} (a : A) (xs ys : List A) → In a (xs ++ ys) ↔ (In a xs ⊎ In a ys)
In-append_iff a xs ys = (
  In-append_cases a xs ys,
  λ m. elim m [ inl i ↦ In-append_left a xs ys i | inr i ↦ In-append_right a xs ys i ],
)

pub In-unless :
    {A : Type 0} (b : Bool) (a x : A)
    → In a (if not b then x ∷ [] else []) ↔ ((b ≡ false) × (a ≡ x))
In-unless true a x = (λ m. absurd m, λ (e, s). ground (arith, e))
In-unless false a x = (λ m. elim m [ inl e ↦ (refl, e) | inr z ↦ absurd z ], λ (e, s). inl s)

-- No value is listed twice.
unfoldable pub Distinct : {A : Type 0} → List A → Type 0
Distinct [] = Unit
Distinct (x ∷ xs) = ¬ (In x xs) × Distinct xs

pub Distinct-append :
    {A : Type 0} (xs ys : List A)
    → Distinct xs
    → Distinct ys
    → ((a : A) → In a xs → ¬ (In a ys))
    → Distinct (xs ++ ys)
unfolding Distinct
Distinct-append [] ys d e apart = e
Distinct-append (x ∷ xs) ys (n, d) e apart = (
  λ m. elim (In-append_cases x xs ys m) [ inl i ↦ n i | inr i ↦ apart x (inl refl) i ],
  Distinct-append xs ys d e (λ a i. apart a (inr i)),
)

pub Distinct-map :
    {A B : Type 0} (f : A → B) (xs : List A)
    → ((a b : A) → f a ≡ f b → a ≡ b)
    → Distinct xs
    → Distinct (map f xs)
unfolding Distinct
Distinct-map f [] injective d = tt
Distinct-map f (x ∷ xs) injective (n, d) = (
  λ m.
      let (a, i, e) = (In-map_iff f (f x) xs).0 m in
      n (subst (λ z. In z xs) (sym (injective x a e)) i),
  Distinct-map f xs injective d,
)

pub Distinct-unless : {A : Type 0} (b : Bool) (a : A) → Distinct (if not b then a ∷ [] else [])
unfolding Distinct
Distinct-unless true a = tt
Distinct-unless false a = (λ m. m, tt)
