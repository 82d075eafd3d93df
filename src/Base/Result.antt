-- ===== src/Base/Result.antt =====
-- A computation that returns or raises, and statements that also change a state.
-- What was written before a raise stays written: the state comes back beside the error too.
use mathlib.Core.Path.{◌≡◌, refl, subst}
use mathlib.Core.Logic.{◌⊎◌, inl, inr}
use mathlib.Core.Bool.{Bool, true, false}
use mathlib.Core.List.{List, [], ◌∷◌, map}

pub data Result (E A : Type 0) : Type 0 where
  ok : A → Result E A
  err : E → Result E A

module _ {E A B : Type 0} where
  -- The chain of two computations that do not change a state.
  abbrev pub and_then : Result E A → (A → Result E B) → Result E B
  and_then (ok a) f = f a
  and_then (err e) f = err e

  pub and_then-eq-ok :
      (m : Result E A) (f : A → Result E B) {b : B}
      → and_then m f ≡ ok b
      → (a : A) × (m ≡ ok a) × (f a ≡ ok b)
  and_then-eq-ok (ok a) f h = (a, refl, h)
  and_then-eq-ok (err e) f h = cc

  abbrev pub map_ok : (A → B) → Result E A → Result E B
  map_ok f (ok a) = ok (f a)
  map_ok f (err e) = err e

abbrev pub Exec : Type 0 → Type 0 → Type 0 → Type 0
Exec E S A = S → Result E A × S

module _ {E S A : Type 0} where
  abbrev pub pure : A → Exec E S A
  pure a s = (ok a, s)

  abbrev pub raise : E → Exec E S A
  raise e s = (err e, s)

module _ {E S : Type 0} where
  -- `if b: raise e`
  abbrev pub raise_if : Bool → E → Exec E S (Unit {0})
  raise_if true e = raise e
  raise_if false e = pure tt

module _ {E S A B : Type 0} where
  abbrev pub continue : Result E A → (A → Exec E S B) → Exec E S B
  continue (ok a) f s = f a s
  continue (err e) f s = (err e, s)

  infixl 10 ◌>>=◌ ◌>>◌
  abbrev pub ◌>>=◌ : Exec E S A → (A → Exec E S B) → Exec E S B
  ◌>>=◌ m f s = let (r, s') = m s in continue r f s'

  abbrev pub ◌>>◌ : Exec E S A → Exec E S B → Exec E S B
  m >> n = m >>= λ _. n

-- What holds of the value, where a computation returns one.
abbrev pub Ensures : {E A : Type 0} → (A → Type 0) → Result E A → Type 0
Ensures P (ok a) = P a
Ensures P (err e) = Unit

module _ {E A B : Type 0} where
  pub Ensures-and_then :
      (Q : A → Type 0) (P : B → Type 0) (m : Result E A) (f : A → Result E B)
      → Ensures Q m
      → ((a : A) → m ≡ ok a → Q a → Ensures P (f a))
      → Ensures P (and_then m f)
  Ensures-and_then Q P (ok a) f h k = k a refl h
  Ensures-and_then Q P (err e) f h k = tt

module _ {E A : Type 0} where
  pub Ensures-nothing : (m : Result E A) → Ensures (λ _. Unit {0}) m
  Ensures-nothing (ok a) = tt
  Ensures-nothing (err e) = tt

  pub Ensures_at : (P : A → Type 0) (m : Result E A) (a : A) → Ensures P m → m ≡ ok a → P a
  Ensures_at P (ok b) a h e = subst (Ensures P) e h
  Ensures_at P (err c) a h e = absurd (cc)

-- `[f(a) for a in xs]`, up to the first that raises.
unfoldable pub traverse : {E A B : Type 0} → (A → Result E B) → List A → Result E (List B)
traverse f [] = ok []
traverse f (a ∷ xs) = and_then (f a) (λ b. and_then (traverse f xs) (λ bs. ok (b ∷ bs)))

-- Two lists of one length, related element by element.
abbrev pub Each : {A B : Type 0} → (A → B → Type 0) → List A → List B → Type 0
Each R [] [] = Unit
Each R [] (b ∷ bs) = ⊥
Each R (a ∷ xs) [] = ⊥
Each R (a ∷ xs) (b ∷ bs) = R a b × Each R xs bs

module _ {E A B : Type 0} where
  pub traverse-Each :
      (R : A → B → Type 0) (f : A → Result E B) (xs : List A)
      → ((a : A) → Ensures (R a) (f a))
      → Ensures (Each R xs) (traverse f xs)
  unfolding traverse
  traverse-Each R f [] h = tt
  traverse-Each R f (a ∷ xs) h = Ensures-and_then (R a) (Each R (a ∷ xs)) (f a) _ (h a) λ b _ r.
      Ensures-and_then (Each R xs) (Each R (a ∷ xs)) (traverse f xs) _ (traverse-Each R f xs h)
        (λ bs _ rs. (r, rs))

module _ {A B C : Type 0} where
  pub Each-map :
      (f : A → C) (g : B → C) (xs : List A) (ys : List B)
      → Each (λ a b. g b ≡ f a) xs ys
      → map g ys ≡ map f xs
  Each-map f g [] [] h = refl
  Each-map f g [] (y ∷ ys) h = absurd h
  Each-map f g (x ∷ xs) [] h = absurd h
  Each-map f g (x ∷ xs) (y ∷ ys) h = cc (h.0, Each-map f g xs ys h.1)

module _ {A B : Type 0} where
  pub Each-weaken :
      (R S : A → B → Type 0) (xs : List A) (ys : List B)
      → ((a : A) (b : B) → R a b → S a b)
      → Each R xs ys
      → Each S xs ys
  Each-weaken R S [] [] k h = tt
  Each-weaken R S [] (y ∷ ys) k h = absurd h
  Each-weaken R S (x ∷ xs) [] k h = absurd h
  Each-weaken R S (x ∷ xs) (y ∷ ys) k h = (k x y h.0, Each-weaken R S xs ys k h.1)

  pub Each-map_back :
      (g : B → A) (xs : List A) (ys : List B) → Each (λ a b. g b ≡ a) xs ys → map g ys ≡ xs
  Each-map_back g [] [] h = refl
  Each-map_back g [] (y ∷ ys) h = absurd h
  Each-map_back g (x ∷ xs) [] h = absurd h
  Each-map_back g (x ∷ xs) (y ∷ ys) h = cc (h.0, Each-map_back g xs ys h.1)

module _ {E A : Type 0} where
  pub Result-cases : (m : Result E A) → ((e : E) × (m ≡ err e)) ⊎ ((a : A) × (m ≡ ok a))
  Result-cases (ok a) = inr (a, refl)
  Result-cases (err e) = inl (e, refl)
