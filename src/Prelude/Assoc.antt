-- ===== src/Prelude/Assoc.antt =====
-- Go's maps as association lists: lookup, store, delete and `len`, over keys with an equality test.
use Prim.Native.Nat.{◌+◌}
use Prim.Native.String.{String}
use mathlib.Core.Path.{◌≡◌, refl, sym, ap, subst, ◌∙◌}
use mathlib.Core.Logic.{◌≢◌, ◌↔◌, inl, inr}
use mathlib.Core.Bool.{Bool, true, false}
use mathlib.Core.Option.{Option, none, some}
use mathlib.Core.List.{List, [], ◌∷◌}
use native.Mathlib.Omega.{arith}
use text.Mathlib.Text.{◌==◌ as str_eq}
use text.Mathlib.TextEquality.{eq_iff}
use masque_vpn.Prelude.Tests.{if◌then◌else◌, Bool-cases}
use masque_vpn.Prelude.Lists.{length, All}

pub record Eq {ℓ} (A : Type ℓ) : Type ℓ where
  pub beq : A → A → Bool
  pub beq_iff : (a b : A) → (beq a b ≡ true) ↔ (a ≡ b)

instance abbrev pub string_eq : Eq String
string_eq = record { beq = str_eq; beq_iff = eq_iff }

module _ {ℓ} {K : Type ℓ} ⦃e : Eq K⦄ where
  pub beq_refl : (a : K) → e.beq a a ≡ true
  beq_refl a = (e.beq_iff a a).1 refl

  pub beq_false : (a b : K) → a ≢ b → e.beq a b ≡ false
  beq_false a b h = elim (Bool-cases (e.beq a b)) [
    | inl q ↦ absurd (h ((e.beq_iff a b).0 q))
    | inr q ↦ q
  ]

  pub ne_of_beq : (a b : K) → e.beq a b ≡ false → a ≢ b
  ne_of_beq a b h q = let same : e.beq a b ≡ true = (e.beq_iff a b).1 q in cc

module _ {ℓ κ} {K : Type ℓ} {V : Type κ} ⦃e : Eq K⦄ where
  unfoldable pub lookup : K → List (K × V) → Option V
  lookup k [] = none
  lookup k ((j, v) ∷ m) = if e.beq j k then some v else lookup k m

  unfoldable pub store : K → V → List (K × V) → List (K × V)
  store k v [] = (k, v) ∷ []
  store k v ((j, w) ∷ m) = if e.beq j k then (k, v) ∷ m else (j, w) ∷ store k v m

  unfoldable pub delete : K → List (K × V) → List (K × V)
  delete k [] = []
  delete k ((j, w) ∷ m) = if e.beq j k then delete k m else (j, w) ∷ delete k m

  pub lookup-store :
      (k j : K) (v : V) (m : List (K × V))
      → lookup j (store k v m) ≡ (if e.beq k j then some v else lookup j m)
  unfolding lookup store
  lookup-store k j v [] = refl
  lookup-store k j v ((i, w) ∷ m) =
      ground (arith, e.beq_iff k j, e.beq_iff i k, e.beq_iff i j, lookup-store k j v m)

  pub lookup-delete :
      (k j : K) (m : List (K × V))
      → lookup j (delete k m) ≡ (if e.beq k j then none else lookup j m)
  unfolding lookup delete
  lookup-delete k j [] = ground arith
  lookup-delete k j ((i, w) ∷ m) =
      ground (arith, e.beq_iff k j, e.beq_iff i k, e.beq_iff i j, lookup-delete k j m)

  -- Each key stands once.
  abbrev pub IsMap : List (K × V) → Type ℓ
  IsMap [] = Unit
  IsMap ((k, v) ∷ m) = All (λ b. b.0 ≢ k) m × IsMap m

  All-store :
      (i k : K) (v : V) (m : List (K × V))
      → k ≢ i
      → All (λ b. b.0 ≢ i) m
      → All (λ b. b.0 ≢ i) (store k v m)
  unfolding store
  All-store i k v [] h a = (h, tt)
  All-store i k v ((j, w) ∷ m) h a = elim (Bool-cases (e.beq j k)) [
    | inl q ↦ rw q (h, a.1)
    | inr q ↦ rw q (a.0, All-store i k v m h a.1)
  ]

  All-delete : (i k : K) (m : List (K × V)) → All (λ b. b.0 ≢ i) m → All (λ b. b.0 ≢ i) (delete k m)
  unfolding delete
  All-delete i k [] a = tt
  All-delete i k ((j, w) ∷ m) a = elim (Bool-cases (e.beq j k)) [
    | inl q ↦ rw q (All-delete i k m a.1)
    | inr q ↦ rw q (a.0, All-delete i k m a.1)
  ]

  pub store-IsMap : (k : K) (v : V) (m : List (K × V)) → IsMap m → IsMap (store k v m)
  unfolding store
  store-IsMap k v [] w = (tt, tt)
  store-IsMap k v ((j, u) ∷ m) w = elim (Bool-cases (e.beq j k)) [
    | inl q ↦ rw q (subst (λ i. All (λ b. b.0 ≢ i) m) ((e.beq_iff j k).0 q) w.0, w.1)
    | inr q ↦ rw q (All-store j k v m (λ p. ne_of_beq j k q (sym p)) w.0, store-IsMap k v m w.1)
  ]

  pub delete-IsMap : (k : K) (m : List (K × V)) → IsMap m → IsMap (delete k m)
  unfolding delete
  delete-IsMap k [] w = tt
  delete-IsMap k ((j, u) ∷ m) w = elim (Bool-cases (e.beq j k)) [
    | inl q ↦ rw q (delete-IsMap k m w.1)
    | inr q ↦ rw q (All-delete j k m w.0, delete-IsMap k m w.1)
  ]

  delete_absent : (k : K) (m : List (K × V)) → All (λ b. b.0 ≢ k) m → delete k m ≡ m
  unfolding delete
  delete_absent k [] a = refl
  delete_absent k ((j, w) ∷ m) a = rw (beq_false j k a.0) (ap (◌∷◌ (j, w)) (delete_absent k m a.1))

  -- `len` after a store of a new key, and after the delete of a key that is there.
  pub length-store_new :
      (k : K) (v : V) (m : List (K × V)) → lookup k m ≡ none → length (store k v m) ≡ length m + 1
  unfolding lookup store
  length-store_new k v [] h = omega arith
  length-store_new k v ((j, w) ∷ m) h = ground (arith, length-store_new k v m)

  pub length-delete :
      (k : K) (v : V) (m : List (K × V))
      → IsMap m
      → lookup k m ≡ some v
      → length (delete k m) + 1 ≡ length m
  unfolding lookup delete
  length-delete k v [] w h = cc
  length-delete k v ((j, u) ∷ m) w h = elim (Bool-cases (e.beq j k)) [
    | inl q ↦ rw q (
        ap (λ t. length t + 1)
          (delete_absent k m (subst (λ i. All (λ b. b.0 ≢ i) m) ((e.beq_iff j k).0 q) w.0))
        ∙ omega arith)
    | inr q ↦ rw q (omega (arith, length-delete k v m w.1 (ground arith)))
  ]
