-- ===== src/Common/Assoc.antt =====
-- JavaScript's `Map` from identifiers to values, as the list of its entries in the order in which
-- their keys were first inserted. Identifiers (strings) are numbers: the code only compares them.
use Prim.Native.Nat.{ℕ, ◌+◌, ◌≤◌, ◌<◌}
use mathlib.Core.Path.{◌≡◌, refl}
use mathlib.Core.Logic.{◌≢◌, inl, inr}
use mathlib.Core.Bool.{Bool, true, false}
use mathlib.Core.List.{List, [], ◌∷◌}
use mathlib.Core.Option.{Option, none, some}
use native.Mathlib.Omega.{arith}
use lotus_sdk.Common.Tests.{◌==◌, ==_iff, if◌then◌else◌, Bool-cases}
use lotus_sdk.Common.Lists.{length}

module _ {ℓ} {V : Type ℓ} where
  unfoldable pub get : List (ℕ × V) → ℕ → Option V
  get [] key = none
  get ((k, v) ∷ entries) key = if k == key then some v else get entries key

  unfoldable pub has_key : List (ℕ × V) → ℕ → Bool
  has_key [] key = false
  has_key ((k, v) ∷ entries) key = if k == key then true else has_key entries key

  -- `set`: an old key keeps its place.
  unfoldable pub put : List (ℕ × V) → ℕ → V → List (ℕ × V)
  put [] key v = (key, v) ∷ []
  put ((k, w) ∷ entries) key v = if k == key then (k, v) ∷ entries else (k, w) ∷ put entries key v

  unfoldable pub remove : List (ℕ × V) → ℕ → List (ℕ × V)
  remove [] key = []
  remove ((k, v) ∷ entries) key =
      let rest = remove entries key in if k == key then rest else (k, v) ∷ rest

  -- The entries that pass a test.
  unfoldable pub keep : (ℕ × V → Bool) → List (ℕ × V) → List (ℕ × V)
  keep test [] = []
  keep test (entry ∷ entries) =
      let rest = keep test entries in if test entry then entry ∷ rest else rest

  pub get-put_self :
      (entries : List (ℕ × V)) (key : ℕ) (v : V) → get (put entries key v) key ≡ some v
  unfolding get put
  get-put_self [] key v = ground arith
  get-put_self ((k, w) ∷ entries) key v = ground (arith, get-put_self entries key v)

  pub get-put_ne :
      (entries : List (ℕ × V)) {key other : ℕ} (v : V)
      → key ≢ other
      → get (put entries key v) other ≡ get entries other
  unfolding get put
  get-put_ne [] v ne = ground arith
  get-put_ne ((k, w) ∷ entries) {key} {other} v ne =
      ground (arith, get-put_ne entries {key = key} {other = other} v ne)

  pub get-remove_self : (entries : List (ℕ × V)) (key : ℕ) → get (remove entries key) key ≡ none
  unfolding get remove
  get-remove_self [] key = refl
  get-remove_self ((k, w) ∷ entries) key = ground (arith, get-remove_self entries key)

  pub get-remove_ne :
      (entries : List (ℕ × V)) {key other : ℕ}
      → key ≢ other
      → get (remove entries key) other ≡ get entries other
  unfolding get remove
  get-remove_ne [] ne = refl
  get-remove_ne ((k, w) ∷ entries) {key} {other} ne =
      ground (arith, get-remove_ne entries {key = key} {other = other} ne)

  pub has_key-get :
      (entries : List (ℕ × V)) (key : ℕ) {v : V}
      → get entries key ≡ some v
      → has_key entries key ≡ true
  unfolding get has_key
  has_key-get [] key e = cc
  has_key-get ((k, w) ∷ entries) key {v} e =
      ground (arith, λ (p : get entries key ≡ some v). has_key-get entries key p, e)

  pub length-put :
      (entries : List (ℕ × V)) (key : ℕ) (v : V) → length (put entries key v) ≤ length entries + 1
  unfolding put
  length-put [] key v = omega arith
  length-put ((k, w) ∷ entries) key v = ground (arith, length-put entries key v)

  pub length-remove :
      (entries : List (ℕ × V)) (key : ℕ) → length (remove entries key) ≤ length entries
  unfolding remove
  length-remove [] key = omega arith
  length-remove ((k, w) ∷ entries) key = ground (arith, length-remove entries key)

  pub length-remove_key :
      (entries : List (ℕ × V)) (key : ℕ)
      → has_key entries key ≡ true
      → length (remove entries key) < length entries
  unfolding remove has_key
  length-remove_key [] key h = cc
  length-remove_key ((k, w) ∷ entries) key h =
      ground (arith, length-remove entries key, length-remove_key entries key, h)

  pub length-keep :
      (test : ℕ × V → Bool) (entries : List (ℕ × V)) → length (keep test entries) ≤ length entries
  unfolding keep
  length-keep test [] = omega arith
  length-keep test (entry ∷ entries) = ground (arith, length-keep test entries)

  -- An entry that passes stays what its key is looked up as, where the key's other entries are
  -- hidden behind it anyway.
  pub get-keep :
      (test : ℕ × V → Bool) (entries : List (ℕ × V)) (key : ℕ) {v : V}
      → get entries key ≡ some v
      → test (key, v) ≡ true
      → get (keep test entries) key ≡ some v
  unfolding get keep
  get-keep test [] key e t = cc
  get-keep test ((k, w) ∷ entries) key {v} e t = elim (Bool-cases (k == key)) [
    | inl p ↦
        let at : k ≡ key = (==_iff k key).0 p in
        let this : some w ≡ some v = rw p at e in
        let same : w ≡ v = cc in
        let passes : test (k, w) ≡ true = rw (at, same) t in rw (passes, p) this
    | inr p ↦
        let rest : get entries key ≡ some v = rw p at e in
        let kept = get-keep test entries key rest t in
        elim (Bool-cases (test (k, w))) [ inl q ↦ rw (q, p) kept | inr q ↦ rw q kept ]
  ]

  pub has_key-remove : (entries : List (ℕ × V)) (key : ℕ) → has_key (remove entries key) key ≡ false
  unfolding has_key remove
  has_key-remove [] key = refl
  has_key-remove ((k, w) ∷ entries) key = ground (arith, has_key-remove entries key)

  pub has_key-put :
      (entries : List (ℕ × V)) (key : ℕ) (v : V) → has_key (put entries key v) key ≡ true
  unfolding has_key put
  has_key-put [] key v = ground arith
  has_key-put ((k, w) ∷ entries) key v = ground (arith, has_key-put entries key v)

  pub has_key-remove_none :
      (entries : List (ℕ × V)) (key other : ℕ)
      → has_key entries other ≡ false
      → has_key (remove entries key) other ≡ false
  unfolding has_key remove
  has_key-remove_none [] key other h = refl
  has_key-remove_none ((k, w) ∷ entries) key other h =
      ground (arith, has_key-remove_none entries key other, h)
