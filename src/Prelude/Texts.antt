-- ===== src/Prelude/Texts.antt =====
-- Python's `str` as the list of its code points.
use Prim.Native.Char.{code}
use Prim.Native.String.{String}
use Prim.Native.Nat.{ℕ, ◌-◌}
use mathlib.Core.Path.{◌≡◌, refl, sym, ◌∙◌}
use mathlib.Core.Logic.{◌↔◌, inl, inr}
use mathlib.Core.Bool.{Bool, true, false, ◌&&◌, ◌||◌}
use mathlib.Core.List.{List, [], ◌∷◌}
use native.Mathlib.Omega.{arith}
use openburrow.Prelude.Tests.{leb, ◌==◌, if◌then◌else◌, Bool-cases}
use openburrow.Prelude.Lists.{length, take, all, is_empty}

abbrev pub Text : Type 0
Text = List ℕ

abbrev pub codes : String → Text
codes String.[] = []
codes (String.◌∷◌ c s) = code c ∷ codes s

unfoldable pub text_eq : Text → Text → Bool
text_eq [] [] = true
text_eq [] (b ∷ t) = false
text_eq (a ∷ s) [] = false
text_eq (a ∷ s) (b ∷ t) = (a == b) && text_eq s t

pub text_eq_refl : (s : Text) → text_eq s s ≡ true
unfolding text_eq
text_eq_refl [] = refl
text_eq_refl (a ∷ s) = ground (arith, text_eq_refl s)

pub eq_of_text_eq : (s t : Text) → text_eq s t ≡ true → s ≡ t
unfolding text_eq
eq_of_text_eq [] [] h = refl
eq_of_text_eq [] (b ∷ t) h = cc
eq_of_text_eq (a ∷ s) [] h = cc
eq_of_text_eq (a ∷ s) (b ∷ t) h = ground (arith, eq_of_text_eq s t)

pub text_eq_iff : (s t : Text) → (text_eq s t ≡ true) ↔ (s ≡ t)
text_eq_iff s t = (eq_of_text_eq s t, λ e. rw e (text_eq_refl t))

-- `t.startswith(s)`
unfoldable pub starts_with : Text → Text → Bool
starts_with [] t = true
starts_with (a ∷ s) [] = false
starts_with (a ∷ s) (b ∷ t) = (a == b) && starts_with s t

-- `t.endswith(s)`
unfoldable pub ends_with : Text → Text → Bool
unfolding text_eq
ends_with s [] = text_eq s []
ends_with s (b ∷ t) = text_eq s (b ∷ t) || ends_with s t

-- `t[:-n]`, for a text of at least `n` characters and n > 0
abbrev pub drop_last : ℕ → Text → Text
drop_last n t = take (length t - n) t

-- The characters that `str.strip` removes.
unfoldable pub is_space : ℕ → Bool
is_space c =
    (leb 9 c && leb c 13)
    || ((leb 28 c && leb c 32)
        || (c == 0x85
            || (c == 0xa0
                || (c == 0x1680
                    || ((leb 0x2000 c && leb c 0x200a)
                        || (c == 0x2028
                            || (c == 0x2029 || (c == 0x202f || (c == 0x205f || c == 0x3000)))))))))

-- `not t.strip()`
unfoldable pub is_blank : Text → Bool
unfolding is_space
is_blank = all is_space

unfoldable pub lstrip : Text → Text
unfolding is_space
lstrip [] = []
lstrip (c ∷ t) = if is_space c then lstrip t else c ∷ t

unfoldable pub rstrip : Text → Text
unfolding is_space
rstrip [] = []
rstrip (c ∷ t) = let rest = rstrip t in if is_empty rest && is_space c then [] else c ∷ rest

-- `t.strip()`
unfoldable pub strip : Text → Text
unfolding lstrip rstrip
strip t = rstrip (lstrip t)

blank_cons : (c : ℕ) (t : Text) → is_blank (c ∷ t) ≡ (is_space c && is_blank t)
unfolding is_blank
blank_cons c t = refl

is_blank-lstrip : (t : Text) → is_blank (lstrip t) ≡ is_blank t
unfolding lstrip
is_blank-lstrip [] = refl
is_blank-lstrip (c ∷ t) = elim (Bool-cases (is_space c)) [
  | inl e ↦ rw e (rw blank_cons (rw e (is_blank-lstrip t)))
  | inr e ↦ rw e
]

trimmed :
    (b : Bool) (c : ℕ) (r t : Text)
    → is_space c ≡ b
    → is_blank r ≡ is_blank t
    → is_blank (if is_empty r && b then [] else c ∷ r) ≡ (b && is_blank t)
trimmed true c [] t e h = h
trimmed false c [] t e h = rw blank_cons (rw e)
trimmed b c (x ∷ r) t e h = rw blank_cons (rw (e, h))

is_blank-rstrip : (t : Text) → is_blank (rstrip t) ≡ is_blank t
unfolding rstrip
is_blank-rstrip [] = refl
is_blank-rstrip (c ∷ t) =
    trimmed (is_space c) c (rstrip t) t refl (is_blank-rstrip t) ∙ sym (blank_cons c t)

-- What `strip` leaves is empty only if the text was blank.
pub is_blank-strip : (t : Text) → is_blank (strip t) ≡ is_blank t
unfolding strip
is_blank-strip t = is_blank-rstrip (lstrip t) ∙ is_blank-lstrip t
