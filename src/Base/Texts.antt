-- ===== src/Base/Texts.antt =====
-- Python's `str` as a list of code points, where the program walks or folds it. `lower` and `strip`
-- are those of ASCII.
use Prim.Native.Nat.{ℕ, ◌+◌}
use Prim.Native.Char.{code}
use Prim.Native.String.{String}
use mathlib.Core.Path.{◌≡◌, refl}
use mathlib.Core.Logic.{◌↔◌}
use mathlib.Core.Bool.{Bool, true, false, ◌&&◌, ◌||◌}
use mathlib.Core.List.{List, [], ◌∷◌}
use native.Mathlib.Omega.{arith}
use mini_siem.Base.Tests.{Eq, nat_beq, leb, if◌then◌else◌}

abbrev pub Text : Type 0
Text = List ℕ

abbrev pub codes : String → Text
codes String.[] = []
codes (String.◌∷◌ c s) = code c ∷ codes s

abbrev pub text_beq : Text → Text → Bool
text_beq [] [] = true
text_beq (c ∷ s) (d ∷ t) = nat_beq c d && text_beq s t
text_beq _ _ = false

pub text_beq_iff : (s t : Text) → (text_beq s t ≡ true) ↔ (s ≡ t)
text_beq_iff [] [] = ground arith
text_beq_iff (c ∷ s) (d ∷ t) = ground (arith, text_beq_iff s t)
text_beq_iff [] (d ∷ t) = ground arith
text_beq_iff (c ∷ s) [] = ground arith

instance abbrev pub text_eq : Eq Text
text_eq = record { beq = text_beq; beq_iff = text_beq_iff }

-- `s.startswith(p)`
abbrev pub starts_with : Text → Text → Bool
starts_with [] s = true
starts_with (c ∷ p) [] = false
starts_with (c ∷ p) (d ∷ s) = nat_beq c d && starts_with p s

-- `p in s`
abbrev pub is_within : Text → Text → Bool
is_within [] s = true
is_within (c ∷ p) [] = false
is_within (c ∷ p) (d ∷ s) = starts_with (c ∷ p) (d ∷ s) || is_within (c ∷ p) s

-- `c.lower()`
abbrev pub lower_code : ℕ → ℕ
lower_code c = if leb b'A' c && leb c b'Z' then c + 32 else c

-- `c.isspace()`: tab to carriage return, the four separators, and the blank
abbrev pub is_space : ℕ → Bool
is_space c = (leb 9 c && leb c 13) || (leb 28 c && leb c 32)

unfoldable pub lower : Text → Text
lower [] = []
lower (c ∷ s) = lower_code c ∷ lower s

unfoldable pub lstrip : Text → Text
lstrip [] = []
lstrip (c ∷ s) = if is_space c then lstrip s else c ∷ s

-- Blanks at the end go: a blank stays only where something is left behind it.
abbrev pub rstrip_cons : ℕ → Text → Text
rstrip_cons c [] = if is_space c then [] else c ∷ []
rstrip_cons c (d ∷ s) = c ∷ d ∷ s

unfoldable pub rstrip : Text → Text
rstrip [] = []
rstrip (c ∷ s) = rstrip_cons c (rstrip s)

-- `s.strip().lower()`
unfoldable pub fold_text : Text → Text
unfolding lower lstrip rstrip
fold_text s = lower (rstrip (lstrip s))

lower_code_idem : (c : ℕ) → lower_code (lower_code c) ≡ lower_code c
lower_code_idem c = ground arith

pub lower_idem : (s : Text) → lower (lower s) ≡ lower s
unfolding lower
lower_idem [] = refl
lower_idem (c ∷ s) = cc (lower_code_idem c, lower_idem s)

space-lower_code : (c : ℕ) → is_space (lower_code c) ≡ is_space c
space-lower_code c = ground arith

lstrip-lower : (s : Text) → lstrip (lower s) ≡ lower (lstrip s)
unfolding lstrip lower
lstrip-lower [] = refl
lstrip-lower (c ∷ s) = ground (arith, space-lower_code c, lstrip-lower s)

rstrip_cons-lower :
    (c : ℕ) (s : Text) → rstrip_cons (lower_code c) (lower s) ≡ lower (rstrip_cons c s)
unfolding lower
rstrip_cons-lower c [] = ground (arith, space-lower_code c)
rstrip_cons-lower c (d ∷ s) = refl

rstrip-lower : (s : Text) → rstrip (lower s) ≡ lower (rstrip s)
unfolding rstrip lower
rstrip-lower [] = refl
rstrip-lower (c ∷ s) = rw (rstrip-lower s) (rstrip_cons-lower c (rstrip s))

-- Case does not matter to the folded form.
pub fold_text-lower : (s : Text) → fold_text (lower s) ≡ fold_text s
unfolding fold_text
fold_text-lower s = rw (lstrip-lower s, rstrip-lower (lstrip s), lower_idem (rstrip (lstrip s)))

-- Nor do blanks in front.
pub fold_text-space : (c : ℕ) (s : Text) → is_space c ≡ true → fold_text (c ∷ s) ≡ fold_text s
unfolding fold_text
fold_text-space c s h = rw h
