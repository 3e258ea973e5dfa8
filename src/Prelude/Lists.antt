-- ===== src/Prelude/Lists.antt =====
-- Lists measured and indexed by native numbers, under the library's names.
use Prim.Native.Nat.{ℕ, zero, suc, ◌+◌, ◌-◌, ◌≤◌, ◌<◌, min}
use mathlib.Core.Path.{◌≡◌, refl, ap, ap₂, ◌∙◌}
use mathlib.Core.List.{List, [], ◌∷◌, ◌++◌}
use mathlib.Core.Logic.{◌≢◌}
use mathlib.Core.Option.{Option, none, some}
use native.Mathlib.Omega.{arith}

module _ {ℓ} {A : Type ℓ} where
  abbrev pub length : List A → ℕ
  length [] = 0
  length (x ∷ xs) = suc (length xs)

  abbrev pub get_elem? : List A → ℕ → Option A
  get_elem? [] i = none
  get_elem? (x ∷ xs) zero = some x
  get_elem? (x ∷ xs) (suc i) = get_elem? xs i

  abbrev pub get_or : List A → ℕ → A → A
  get_or [] i d = d
  get_or (x ∷ xs) zero d = x
  get_or (x ∷ xs) (suc i) d = get_or xs i d

  -- A write out of bounds changes nothing.
  abbrev pub set : List A → ℕ → A → List A
  set [] i v = []
  set (x ∷ xs) zero v = v ∷ xs
  set (x ∷ xs) (suc i) v = x ∷ set xs i v

  abbrev pub take : ℕ → List A → List A
  take zero xs = []
  take (suc n) [] = []
  take (suc n) (x ∷ xs) = x ∷ take n xs

  abbrev pub drop : ℕ → List A → List A
  drop zero xs = xs
  drop (suc n) [] = []
  drop (suc n) (x ∷ xs) = drop n xs

  abbrev pub replicate : ℕ → A → List A
  replicate zero a = []
  replicate (suc n) a = a ∷ replicate n a

  -- A predicate on every element.
  abbrev pub All {κ} : (A → Type κ) → List A → Type κ
  All P [] = Unit
  All P (x ∷ xs) = P x × All P xs

module _ {ℓ} {A : Type ℓ} where
  pub length-append : (xs ys : List A) → length (xs ++ ys) ≡ length xs + length ys
  length-append [] ys = omega arith
  length-append (x ∷ xs) ys = omega (arith, length-append xs ys)

  pub length-set : (xs : List A) (i : ℕ) (v : A) → length (set xs i v) ≡ length xs
  length-set [] i v = refl
  length-set (x ∷ xs) zero v = refl
  length-set (x ∷ xs) (suc i) v = ap suc (length-set xs i v)

  pub length-take : (n : ℕ) (xs : List A) → length (take n xs) ≡ min n (length xs)
  length-take zero xs = omega arith
  length-take (suc n) [] = omega arith
  length-take (suc n) (x ∷ xs) = omega (arith, length-take n xs)

  pub length-drop : (n : ℕ) (xs : List A) → length (drop n xs) ≡ length xs - n
  length-drop zero xs = omega arith
  length-drop (suc n) [] = omega arith
  length-drop (suc n) (x ∷ xs) = omega (arith, length-drop n xs)

  pub length-replicate : (n : ℕ) (a : A) → length (replicate n a) ≡ n
  length-replicate zero a = refl
  length-replicate (suc n) a = ap suc (length-replicate n a)

  pub take-append-drop : (n : ℕ) (xs : List A) → take n xs ++ drop n xs ≡ xs
  take-append-drop zero xs = refl
  take-append-drop (suc n) [] = refl
  take-append-drop (suc n) (x ∷ xs) = ap (◌∷◌ x) (take-append-drop n xs)

  pub take-length_append : (xs ys : List A) → take (length xs) (xs ++ ys) ≡ xs
  take-length_append [] ys = refl
  take-length_append (x ∷ xs) ys = ap (◌∷◌ x) (take-length_append xs ys)

  pub drop-length_append : (xs ys : List A) → drop (length xs) (xs ++ ys) ≡ ys
  drop-length_append [] ys = refl
  drop-length_append (x ∷ xs) ys = drop-length_append xs ys

  pub take_of_length-le : (k : ℕ) (ys : List A) → length ys ≤ k → take k ys ≡ ys
  take_of_length-le zero [] fits = refl
  take_of_length-le (suc k) [] fits = refl
  take_of_length-le zero (y ∷ ys) fits = absurd (omega arith)
  take_of_length-le (suc k) (y ∷ ys) fits =
      let shorter : length ys ≤ k = omega arith in ap (λ t. y ∷ t) (take_of_length-le k ys shorter)

  pub get_or-append_left :
      (d : A) (xs ys : List A) (i : ℕ) → i < length xs → get_or (xs ++ ys) i d ≡ get_or xs i d
  get_or-append_left d [] ys i h = elim h [ ]
  get_or-append_left d (x ∷ xs) ys zero h = refl
  get_or-append_left d (x ∷ xs) ys (suc i) h = get_or-append_left d xs ys i (omega arith)

  pub get_or-append_right :
      (d : A) (xs ys : List A) (i : ℕ)
      → length xs ≤ i
      → get_or (xs ++ ys) i d ≡ get_or ys (i - length xs) d
  get_or-append_right d [] ys i h = ap (λ k. get_or ys k d) (omega arith)
  get_or-append_right d (x ∷ xs) ys zero h = absurd (omega arith)
  get_or-append_right d (x ∷ xs) ys (suc i) h =
      get_or-append_right d xs ys i (omega arith) ∙ ap (λ k. get_or ys k d) (omega arith)

  pub get_or_out : (d : A) (xs : List A) (i : ℕ) → length xs ≤ i → get_or xs i d ≡ d
  get_or_out d [] i h = refl
  get_or_out d (x ∷ xs) zero h = absurd (omega arith)
  get_or_out d (x ∷ xs) (suc i) h = get_or_out d xs i (omega arith)

  pub get_or_ext :
      (d : A) (xs ys : List A)
      → length xs ≡ length ys
      → ((i : ℕ) → i < length xs → get_or xs i d ≡ get_or ys i d)
      → xs ≡ ys
  get_or_ext d [] [] e h = refl
  get_or_ext d [] (y ∷ ys) e h = absurd (omega arith)
  get_or_ext d (x ∷ xs) [] e h = absurd (omega arith)
  get_or_ext d (x ∷ xs) (y ∷ ys) e h =
      ap₂ ◌∷◌ (h 0 (omega arith))
        (get_or_ext d xs ys (omega arith) (λ i p. h (suc i) (omega arith)))

  pub get_or-set_self :
      (d : A) (xs : List A) (i : ℕ) (v : A) → i < length xs → get_or (set xs i v) i d ≡ v
  get_or-set_self d [] i v h = elim h [ ]
  get_or-set_self d (x ∷ xs) zero v h = refl
  get_or-set_self d (x ∷ xs) (suc i) v h = get_or-set_self d xs i v (omega arith)

  pub get_or-set_ne :
      (d : A) (xs : List A) (i j : ℕ) (v : A) → i ≢ j → get_or (set xs i v) j d ≡ get_or xs j d
  get_or-set_ne d [] i j v h = refl
  get_or-set_ne d (x ∷ xs) zero zero v h = absurd (h refl)
  get_or-set_ne d (x ∷ xs) zero (suc j) v h = refl
  get_or-set_ne d (x ∷ xs) (suc i) zero v h = refl
  get_or-set_ne d (x ∷ xs) (suc i) (suc j) v h = get_or-set_ne d xs i j v (λ e. h (ap suc e))

  pub get_or-replicate : (d : A) (n i : ℕ) → get_or (replicate n d) i d ≡ d
  get_or-replicate d zero i = refl
  get_or-replicate d (suc n) zero = refl
  get_or-replicate d (suc n) (suc i) = get_or-replicate d n i

  pub get_or-take :
      (d : A) (n : ℕ) (xs : List A) (i : ℕ) → i < n → get_or (take n xs) i d ≡ get_or xs i d
  get_or-take d zero xs i h = elim h [ ]
  get_or-take d (suc n) [] i h = refl
  get_or-take d (suc n) (x ∷ xs) zero h = refl
  get_or-take d (suc n) (x ∷ xs) (suc i) h = get_or-take d n xs i (omega arith)

  pub get_or-drop :
      (d : A) (n : ℕ) (xs : List A) (i : ℕ) → get_or (drop n xs) i d ≡ get_or xs (n + i) d
  get_or-drop d zero xs i = ap (λ k. get_or xs k d) (omega arith)
  get_or-drop d (suc n) [] i = refl
  get_or-drop d (suc n) (x ∷ xs) i =
      get_or-drop d n xs i ∙ ap (λ k. get_or (x ∷ xs) k d) {x = suc (n + i)} (omega arith)

  pub take-drop-suc :
      (d : A) (n i : ℕ) (xs : List A)
      → i < length xs
      → take (suc n) (drop i xs) ≡ get_or xs i d ∷ take n (drop (i + 1) xs)
  take-drop-suc d n i [] h = elim h [ ]
  take-drop-suc d n zero (x ∷ xs) h = refl
  take-drop-suc d n (suc i) (x ∷ xs) h =
      take-drop-suc d n i xs (omega arith)
      ∙ ap (λ k. get_or xs i d ∷ take n (drop k (x ∷ xs))) {x = suc (i + 1)} (omega arith)

  pub get_elem?-append_left :
      (xs ys : List A) (i : ℕ) → i < length xs → get_elem? (xs ++ ys) i ≡ get_elem? xs i
  get_elem?-append_left [] ys i h = elim h [ ]
  get_elem?-append_left (x ∷ xs) ys zero h = refl
  get_elem?-append_left (x ∷ xs) ys (suc i) h = get_elem?-append_left xs ys i (omega arith)

  pub get_elem?-append_right :
      (xs ys : List A) (i : ℕ) → get_elem? (xs ++ ys) (length xs + i) ≡ get_elem? ys i
  get_elem?-append_right [] ys i = ap (get_elem? ys) (omega arith)
  get_elem?-append_right (x ∷ xs) ys i =
      ap (get_elem? (x ∷ (xs ++ ys))) {x = suc (length xs) + i} {y = suc (length xs + i)}
        (omega arith)
      ∙ get_elem?-append_right xs ys i

  pub get_elem?-eq-get_or :
      (d : A) (xs : List A) (i : ℕ) → i < length xs → get_elem? xs i ≡ some (get_or xs i d)
  get_elem?-eq-get_or d [] i h = elim h [ ]
  get_elem?-eq-get_or d (x ∷ xs) zero h = refl
  get_elem?-eq-get_or d (x ∷ xs) (suc i) h = get_elem?-eq-get_or d xs i (omega arith)

  pub get_elem?_out : (xs : List A) (i : ℕ) → length xs ≤ i → get_elem? xs i ≡ none
  get_elem?_out [] i h = refl
  get_elem?_out (x ∷ xs) zero h = absurd (omega arith)
  get_elem?_out (x ∷ xs) (suc i) h = get_elem?_out xs i (omega arith)

  pub All-get_or {κ} :
      (P : A → Type κ) (d : A) (xs : List A) (i : ℕ) → All P xs → i < length xs → P (get_or xs i d)
  All-get_or P d [] i a h = elim h [ ]
  All-get_or P d (x ∷ xs) zero a h = a.0
  All-get_or P d (x ∷ xs) (suc i) a h = All-get_or P d xs i a.1 (omega arith)

  -- f i, f (i + 1), …: n values.
  abbrev pub tabulate : (ℕ → A) → ℕ → ℕ → List A
  tabulate f i zero = []
  tabulate f i (suc n) = f i ∷ tabulate f (i + 1) n

  pub length-tabulate : (f : ℕ → A) (i n : ℕ) → length (tabulate f i n) ≡ n
  length-tabulate f i zero = refl
  length-tabulate f i (suc n) = ap suc (length-tabulate f (i + 1) n)

  pub get_elem?-tabulate :
      (f : ℕ → A) (i n k : ℕ) → k < n → get_elem? (tabulate f i n) k ≡ some (f (i + k))
  get_elem?-tabulate f i zero k h = elim h [ ]
  get_elem?-tabulate f i (suc n) zero h = ap (λ j. some (f j)) {x = i} (omega arith)
  get_elem?-tabulate f i (suc n) (suc k) h =
      get_elem?-tabulate f (i + 1) n k (omega arith)
      ∙ ap (λ j. some (f j)) {x = i + 1 + k} (omega arith)
