-- ===== src/Script/Delete.antt =====
-- What `findAndDelete` deletes, and what it leaves.
use lotus_sdk.Common.{
  ℕ, zero, suc, ◌/◌, replicate, ◌≡◌, refl, true, false, List, [], ◌∷◌, ◌++◌, All, arith,
}
use lotus_sdk.ScriptNum.{Buffer}
use lotus_sdk.Errors.{ok}
use lotus_sdk.Script.{Chunk, chunk_to_buffer, same_bytes, find_and_delete}

pub same_bytes_refl : (b : Buffer) → same_bytes b b ≡ true
unfolding same_bytes
same_bytes_refl [] = refl
same_bytes_refl (x ∷ b) = ground (arith, same_bytes_refl b)

pub same_bytes→eq : (a b : Buffer) → same_bytes a b ≡ true → a ≡ b
unfolding same_bytes
same_bytes→eq [] [] h = refl
same_bytes→eq [] (y ∷ b) h = cc
same_bytes→eq (x ∷ a) [] h = cc
same_bytes→eq (x ∷ a) (y ∷ b) h = ground (arith, same_bytes→eq a b)

-- `c` is written as bytes other than `buf`.
abbrev pub IsOther : Buffer → Chunk → Type 0
IsOther buf c = (b : Buffer) × (chunk_to_buffer c ≡ ok b) × (same_bytes buf b ≡ false)

-- `c` is written as the bytes `buf`.
abbrev pub IsMatch : Buffer → Chunk → Type 0
IsMatch buf c = chunk_to_buffer c ≡ ok buf

-- Nothing is deleted from a script that does not hold the bytes.
find_and_delete-other :
    (buf : Buffer) (cs : List Chunk) → All (IsOther buf) cs → find_and_delete buf cs ≡ ok cs
unfolding find_and_delete
find_and_delete-other buf [] h = refl
find_and_delete-other buf (c ∷ []) h = let (b, w, o) = h.0 in rw (w, o)
find_and_delete-other buf (c ∷ d ∷ cs) h =
    let (b, w, o) = h.0 in rw (w, o, find_and_delete-other buf (d ∷ cs) h.1)

-- A single occurrence, with other chunks before and behind it, is deleted, and nothing else is.
find_and_delete-single :
    (buf : Buffer) (c : Chunk) (before after : List Chunk)
    → IsMatch buf c
    → All (IsOther buf) before
    → All (IsOther buf) after
    → find_and_delete buf (before ++ c ∷ after) ≡ ok (before ++ after)
unfolding find_and_delete
find_and_delete-single buf c [] [] m hb ha = rw (m, same_bytes_refl buf)
find_and_delete-single buf c [] (d ∷ after) m hb ha =
    rw (m, same_bytes_refl buf, find_and_delete-other buf after ha.1)
find_and_delete-single buf c (x ∷ []) after m hb ha =
    let (b, w, o) = hb.0 in rw (w, o, find_and_delete-single buf c [] after m tt ha)
find_and_delete-single buf c (x ∷ y ∷ before) after m hb ha =
    let (b, w, o) = hb.0 in rw (w, o, find_and_delete-single buf c (y ∷ before) after m hb.1 ha)

-- Of `n` occurrences in a row, the half stays, rounded down: behind each that it deletes the loop
-- skips the chunk that moves into its place. The chunks behind the row are written as other bytes.
pub find_and_delete-replicate :
    (buf : Buffer) (c : Chunk) (n : ℕ) (after : List Chunk)
    → IsMatch buf c
    → All (IsOther buf) after
    → find_and_delete buf (replicate n c ++ after) ≡ ok (replicate (n / 2) c ++ after)
unfolding find_and_delete
find_and_delete-replicate buf c zero after m h = find_and_delete-other buf after h
find_and_delete-replicate buf c (suc zero) [] m h = rw (m, same_bytes_refl buf) refl
find_and_delete-replicate buf c (suc zero) (d ∷ after) m h =
    rw (m, same_bytes_refl buf, find_and_delete-other buf after h.1) refl
find_and_delete-replicate buf c (suc (suc n)) after m h =
    let half : suc (suc n) / 2 ≡ suc (n / 2) = omega arith in
    rw (half, m, same_bytes_refl buf, find_and_delete-replicate buf c n after m h) refl
