-- ===== src/SmallBuf/Reading.antt =====
-- smallbuf.go: what `Read` takes of the unread bytes, and going back.
use Prim.Native.Nat.{min}
use go_tarantool.Common.{
  ℕ, zero, suc, ◌+◌, ◌-◌, ◌≤◌, ◌≡◌, refl, sym, ap, ◌∙◌, inl, inr, ◌&&◌, Bool-cases, List, [], ◌∷◌,
  ◌++◌, Option, none, some, ltb, ◌==◌, if◌then◌else◌, length, take, drop, take-append-drop,
  length-take, length-drop, true, false, arith,
}
use go_tarantool.SmallBuf.{SmallBuf, read, bytes, offset, seek}

drop_all : (xs : List ℕ) (n : ℕ) → length xs ≤ n → drop n xs ≡ []
drop_all [] zero h = refl
drop_all [] (suc n) h = refl
drop_all (x ∷ xs) zero h = absurd (omega arith)
drop_all (x ∷ xs) (suc n) h = drop_all xs n (omega arith)

bytes-drop : (s : SmallBuf) → bytes s ≡ drop s.p s.b
unfolding bytes
bytes-drop s = ground (arith, drop_all s.b s.p)

drop-add : (n m : ℕ) (xs : List ℕ) → drop m (drop n xs) ≡ drop (n + m) xs
drop-add zero m xs = let none_before : m ≡ 0 + m = omega arith in ap (λ k. drop k xs) none_before
drop-add (suc n) zero [] =
    let e : suc (n + 0) ≡ suc n + 0 = omega arith in ap (λ k. drop {A = ℕ} k []) e
drop-add (suc n) (suc m) [] =
    let e : suc (n + suc m) ≡ suc n + suc m = omega arith in ap (λ k. drop {A = ℕ} k []) e
drop-add (suc n) m (x ∷ xs) =
    let e : suc (n + m) ≡ suc n + m = omega arith in drop-add n m xs ∙ ap (λ k. drop k (x ∷ xs)) e

-- What `Read` answers for a slice of `n` bytes: how many bytes it copies, and which.
abbrev pub Took : ℕ → SmallBuf → Option (List ℕ) × SmallBuf → Type 0
Took n s (none, q) = (q ≡ s) × (bytes s ≡ []) × (ltb 0 n ≡ true)
Took n s (some d, q) =
    (d ++ bytes q ≡ bytes s)
    × (length d ≡ min n (length (bytes s)))
    × ((length d == 0) ≡ (n == 0))
    × (q.p ≤ length q.b)
    × (seek (offset s) q ≡ some s)

seek_back :
    (s : SmallBuf) (l : ℕ) → s.p ≤ length s.b → seek (offset s) (record s { p = s.p + l }) ≡ some s
unfolding seek offset
seek_back s l h = ground (arith, h)

taken : (n : ℕ) (s : SmallBuf) → ℕ
taken n s = let left = length s.b - s.p in if ltb n left then n else left

taken_lem :
    (n : ℕ) (s : SmallBuf)
    → s.p ≤ length s.b
    → length (take (taken n s) (drop s.p s.b)) ≡ min n (length (bytes s))
unfolding taken
taken_lem n s h = rw (length-take, bytes-drop s, length-drop) (ground arith)

taken-zero :
    (n : ℕ) (s : SmallBuf)
    → s.p ≤ length s.b
    → ((length s.b - s.p) == 0 && ltb 0 n) ≡ false
    → (length (take (taken n s) (drop s.p s.b)) == 0) ≡ (n == 0)
unfolding taken
taken-zero n s h e = rw (length-take, length-drop) (ground arith)

-- `Read` into a slice of `n` bytes, on a buffer whose position is inside of its bytes. It answers
-- `io.EOF`, and leaves the buffer as it is, only where nothing is left and `n` is not 0. Otherwise it
-- copies `n` bytes, or all that are left where they are fewer, and none only for an empty slice; the bytes
-- that it copies and those that are then left are the bytes that were left before, the position stays
-- inside, and `Seek` to the old offset restores the buffer.
pub read-Took : (n : ℕ) (s : SmallBuf) → s.p ≤ length s.b → Took n s (read n s)
unfolding read taken
read-Took n s h =
    let left = length s.b - s.p in
    let l = if ltb n left then n else left in
    elim (Bool-cases (left == 0 && ltb 0 n)) [
      | inl e ↦ rw e (refl, bytes-drop s ∙ drop_all s.b s.p (ground arith), ground arith)
      | inr e ↦ rw e (
        ap (λ x. take l (drop s.p s.b) ++ x)
              (bytes-drop (record s { p = s.p + l }) ∙ sym (drop-add s.p l s.b))
            ∙ take-append-drop l (drop s.p s.b)
            ∙ sym (bytes-drop s),
        taken_lem n s h,
        taken-zero n s h e,
        ground (arith, h),
        seek_back s l h,
      )
    ]
