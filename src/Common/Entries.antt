-- ===== src/Common/Entries.antt =====
-- What holds of every entry of a `Map`, and the keys of its entries.
use Prim.Native.Nat.{ℕ}
use mathlib.Core.Path.{◌≡◌, refl, sym}
use mathlib.Core.Logic.{◌≢◌, inl, inr}
use mathlib.Core.Bool.{Bool, true, false}
use mathlib.Core.List.{List, [], ◌∷◌}
use mathlib.Core.Option.{some}
use native.Mathlib.Omega.{arith}
use lotus_sdk.Common.Tests.{◌==◌, Bool-cases}
use lotus_sdk.Common.Lists.{length, All, All-map}
use lotus_sdk.Common.Assoc.{get, has_key, put, remove, keep}

module _ {ℓ} {V : Type ℓ} where
  has_key-cons :
      (entries : List (ℕ × V)) (entry : ℕ × V) (key : ℕ)
      → has_key entries key ≡ true
      → has_key (entry ∷ entries) key ≡ true
  unfolding has_key
  has_key-cons entries entry key h = ground (arith, h)

  pub own-has_key : (entries : List (ℕ × V)) → All (λ e. has_key entries e.0 ≡ true) entries
  own-has_key [] = tt
  own-has_key (entry ∷ entries) = (
    unfold has_key in ground arith,
    All-map (λ e. has_key-cons entries entry e.0) entries (own-has_key entries),
  )

  pub has_key-put_none :
      (entries : List (ℕ × V)) (key other : ℕ) (v : V)
      → key ≢ other
      → has_key entries other ≡ false
      → has_key (put entries key v) other ≡ false
  unfolding has_key put
  has_key-put_none [] key other v ne h = ground arith
  has_key-put_none ((k, w) ∷ entries) key other v ne h =
      ground (arith, has_key-put_none entries key other v ne, h)

  pub length-put_old :
      (entries : List (ℕ × V)) (key : ℕ) (v : V)
      → has_key entries key ≡ true
      → length (put entries key v) ≡ length entries
  unfolding has_key put
  length-put_old [] key v h = cc
  length-put_old ((k, w) ∷ entries) key v h = ground (arith, length-put_old entries key v, h)

  pub has_key-keep_none :
      (test : ℕ × V → Bool) (entries : List (ℕ × V)) (key : ℕ)
      → has_key entries key ≡ false
      → has_key (keep test entries) key ≡ false
  unfolding has_key keep
  has_key-keep_none test [] key h = refl
  has_key-keep_none test ((k, w) ∷ entries) key h =
      ground (arith, has_key-keep_none test entries key, h)

module _ {ℓ ℓ'} {V : Type ℓ} (P : ℕ × V → Type ℓ') where
  pub All-remove : (entries : List (ℕ × V)) (key : ℕ) → All P entries → All P (remove entries key)
  unfolding remove
  All-remove [] key hs = tt
  All-remove ((k, v) ∷ entries) key hs = elim (Bool-cases (k == key)) [
    | inl p ↦ rw p (All-remove entries key hs.1)
    | inr p ↦ rw p (hs.0, All-remove entries key hs.1)
  ]

  pub All-keep :
      (test : ℕ × V → Bool) (entries : List (ℕ × V)) → All P entries → All P (keep test entries)
  unfolding keep
  All-keep test [] hs = tt
  All-keep test (entry ∷ entries) hs = elim (Bool-cases (test entry)) [
    | inl p ↦ rw p (hs.0, All-keep test entries hs.1)
    | inr p ↦ rw p (All-keep test entries hs.1)
  ]

  pub All-put :
      (entries : List (ℕ × V)) (key : ℕ) (v : V)
      → ((k : ℕ) → P (k, v))
      → All P entries
      → All P (put entries key v)
  unfolding put
  All-put [] key v h hs = (h key, tt)
  All-put ((k, w) ∷ entries) key v h hs = elim (Bool-cases (k == key)) [
    | inl p ↦ rw p (h k, hs.1)
    | inr p ↦ rw p (hs.0, All-put entries key v h hs.1)
  ]

  pub All-get :
      (entries : List (ℕ × V)) (key : ℕ) {v : V}
      → All P entries
      → get entries key ≡ some v
      → (k : ℕ) × P (k, v)
  unfolding get
  All-get [] key hs e = absurd cc
  All-get ((k, w) ∷ entries) key {v} hs e = elim (Bool-cases (k == key)) [
    | inl p ↦
        let this : some w ≡ some v = rw p at e in let same : w ≡ v = cc in (k, rw (sym same) hs.0)
    | inr p ↦ All-get entries key hs.1 (rw p at e)
  ]
