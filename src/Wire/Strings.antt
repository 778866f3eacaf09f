-- ===== src/Wire/Strings.antt =====
-- An SSH string that is written can be read again.
use openburrow.Prelude.{
  ℕ, ◌+◌, ◌≤◌, ◌<◌, ◌≡◌, refl, sym, ap, ◌∙◌, false, some, some-injective, subst, [], ◌∷◌, ◌++◌,
  append_assoc, length, length-append, take, drop, ltb, Bool-cases, arith, inl, inr,
}
use Prim.Native.Nat.{◌/◌, ◌%◌}
use openburrow.Wire.{Bytes, to_bytes, from_bytes, slice, ssh_string, ssh_take}

drop-append : (pre xs : Bytes) → drop (length pre) (pre ++ xs) ≡ xs
drop-append [] xs = refl
drop-append (b ∷ pre) xs = drop-append pre xs

take-append : (pre xs : Bytes) → take (length pre) (pre ++ xs) ≡ pre
take-append [] xs = refl
take-append (b ∷ pre) xs = ap (λ bs. b ∷ bs) (take-append pre xs)

-- A slice that begins behind one part of a buffer and ends behind the next.
slice-append :
    (pre mid post : Bytes)
    → slice (pre ++ (mid ++ post)) (length pre) (length pre + length mid) ≡ mid
unfolding slice
slice-append pre mid post =
    ap (λ n. take n (drop (length pre) (pre ++ (mid ++ post)))) (omega arith)
    ∙ (ap (take (length mid)) (drop-append pre (mid ++ post)) ∙ take-append mid post)

from_bytes-four :
    (n : ℕ)
    → n < 4_294_967_296
    → from_bytes 0 (n / 16_777_216 ∷ n / 65_536 % 256 ∷ n / 256 % 256 ∷ n % 256 ∷ []) ≡ n
unfolding from_bytes
from_bytes-four n h = omega (arith, h)

abbrev four : ℕ → Bytes
four n = n / 16_777_216 ∷ n / 65_536 % 256 ∷ n / 256 % 256 ∷ n % 256 ∷ []

-- What is written is the size in four bytes, and then the value.
ssh_string-four :
    (value w : Bytes)
    → ssh_string value ≡ some w
    → (length value < 4_294_967_296) × (w ≡ four (length value) ++ value)
unfolding ssh_string to_bytes
ssh_string-four value w h = elim (Bool-cases (ltb (length value) 4_294_967_296)) [
  | inl e ↦ (ground arith, sym (some-injective _ _ (rw e at h)))
  | inr e ↦ absurd (cc (rw e at h))
]

fits : (m n : ℕ) → m ≤ n → ltb n m ≡ false
fits m n h = ground (arith, h)

ssh_take-four :
    (value before after : Bytes)
    → length value < 4_294_967_296
    → ssh_take (before ++ ((four (length value) ++ value) ++ after)) (length before)
      ≡ some (value, length before + length (four (length value) ++ value))
unfolding ssh_take
ssh_take-four value before after small =
    let size = four (length value) in
    let raw = before ++ (size ++ (value ++ after)) in
    let start : length (before ++ size) ≡ length before + 4 = length-append before size in
    let long : length raw ≡ length before + 4 + (length value + length after) =
      length-append before (size ++ (value ++ after)) ∙ omega (arith, length-append value after) in
    let head : from_bytes 0 (slice raw (length before) (length before + 4)) ≡ length value =
      ap (from_bytes 0) (slice-append before size (value ++ after))
      ∙ from_bytes-four (length value) small in
    let body : slice raw (length before + 4) (length before + 4 + length value) ≡ value =
      ap (λ r. slice r (length before + 4) (length before + 4 + length value))
        (sym (append_assoc before size (value ++ after)))
      ∙ (ap (λ n. slice ((before ++ size) ++ (value ++ after)) n (n + length value)) (sym start)
          ∙ slice-append (before ++ size) value after) in
    rw
      (
        fits (length before + 4) (length raw) (omega (arith, long)),
        head,
        fits (length before + 4 + length value) (length raw) (omega (arith, long)),
        body,
      )
      (ap (λ n. some (value, n)) (omega arith))

-- A string that is written at any place of a buffer is read there, up to the place where it ends.
pub ssh_take-ssh_string :
    (value w before after : Bytes)
    → ssh_string value ≡ some w
    → ssh_take (before ++ (w ++ after)) (length before) ≡ some (value, length before + length w)
ssh_take-ssh_string value w before after h =
    let (small, is_four) = ssh_string-four value w h in
    subst
      (λ u.
        ssh_take (before ++ (u ++ after)) (length before) ≡ some (value, length before + length u))
      (sym is_four) (ssh_take-four value before after small)
