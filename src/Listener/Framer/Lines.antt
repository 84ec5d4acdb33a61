-- ===== src/Listener/Framer/Lines.antt =====
-- listener.py, `feed`: the loop over lines.
use mathlib.Core.Path.{subst}
use mini_siem.Base.{
  ℕ, ◌≡◌, refl, sym, ap, ◌∙◌, inl, inr, Bool, List, [], ◌∷◌, ◌++◌, string_eq, nat_eq, ◌==◌,
  Bool-cases, Text, text_eq, false, ◌||◌, arith, ltb, length, length-append, any_of, suc, ◌≤◌, true,
  if◌then◌else◌,
}
use mini_siem.Listener.Framer.Counted.{Splits, left_buffer, left_frames}
use mini_siem.Listener.Framer.{
  push_byte, end_line, split_lines, is_blank, frames_of, left, line_frames, line_loop, long_line,
  unterminated, broken,
}

-- the lines and the rest with more bytes in front
abbrev pub push_all : Text → List Text × Text → List Text × Text
push_all x ([], rest) = ([], x ++ rest)
push_all x (l ∷ ls, rest) = ((x ++ l) ∷ ls, rest)

abbrev pub lines_then : List Text × Text → List Text × Text → List Text × Text
lines_then (ls, r) p = let (ls', r') = push_all r p in (ls ++ ls', r')

push_byte-then :
    (c : ℕ) (p q : List Text × Text) → push_byte c (lines_then p q) ≡ lines_then (push_byte c p) q
push_byte-then c ([], r) ([], r') = refl
push_byte-then c ([], r) (l ∷ ls, r') = refl
push_byte-then c (l ∷ ls, r) ([], r') = refl
push_byte-then c (l ∷ ls, r) (l' ∷ ls', r') = refl

push_nil : (p : List Text × Text) → push_all [] p ≡ p
push_nil ([], r) = refl
push_nil (l ∷ ls, r) = refl

-- The lines of two texts are those of the first, then those of the second behind its rest.
pub split_lines-append :
    (x b : Text) → split_lines (x ++ b) ≡ lines_then (split_lines x) (split_lines b)
unfolding split_lines
split_lines-append [] b = sym (push_nil (split_lines b))
split_lines-append (c ∷ s) b = elim (Bool-cases (c == b'\n')) [
  | inl e ↦ rw e (ap end_line (split_lines-append s b))
  | inr e ↦
      rw e (
        ap (push_byte c) (split_lines-append s b)
        ∙ push_byte-then c (split_lines s) (split_lines b))
]

-- The rest has no line in it.
pub split_lines-rest : (x : Text) → split_lines (split_lines x).1 ≡ ([], (split_lines x).1)
unfolding split_lines
split_lines-rest [] = refl
split_lines-rest (c ∷ s) = elim (Bool-cases (c == b'\n')) [
  | inl e ↦ rw e (split_lines-rest s)
  | inr e ↦ rw e (pushed (split_lines s) e (split_lines-rest s))
]
  where
    pushed :
        (p : List Text × Text)
        → (c == b'\n') ≡ false
        → split_lines p.1 ≡ ([], p.1)
        → split_lines (push_byte c p).1 ≡ ([], (push_byte c p).1)
    pushed ([], r) e h = rw (e, h) refl
    pushed (l ∷ ls, r) e h = h

-- With more bytes behind a rest, its first line, or the new rest, is no shorter.
too_long-push_all :
    (limit : ℕ) (r : Text) (p : List Text × Text)
    → any_of (λ (l : Text). ltb limit (length l)) (push_all r p).0 ≡ false
    → ltb limit (length (push_all r p).1) ≡ false
    → ltb limit (length r) ≡ false
too_long-push_all limit r ([], rest) h k = ground (arith, length-append r rest)
too_long-push_all limit r (l ∷ ls, rest) h k = ground (arith, length-append r l)

any_of-append :
    (test : Text → Bool) (xs ys : List Text)
    → any_of test (xs ++ ys) ≡ (any_of test xs || any_of test ys)
any_of-append test [] ys = refl
any_of-append test (x ∷ xs) ys = ground (arith, any_of-append test xs ys)

frames_of-append : (xs ys : List Text) → frames_of (xs ++ ys) ≡ frames_of xs ++ frames_of ys
frames_of-append [] ys = refl
frames_of-append (x ∷ xs) ys = elim (Bool-cases (is_blank x)) [
  | inl e ↦ rw e (frames_of-append xs ys)
  | inr e ↦ rw e (ap (λ (zs : List Text). x ∷ zs) (frames_of-append xs ys))
]

line_frames-left :
    (limit : ℕ) (p : List Text × Text) (y : Text) (fs : List Text)
    → line_frames limit false p ≡ left y fs
    → (any_of (λ (l : Text). ltb limit (length l)) p.0 ≡ false)
      × (ltb limit (length p.1) ≡ false)
      × (p.1 ≡ y)
      × (frames_of p.0 ≡ fs)
line_frames-left limit (ls, r) y fs h =
    by_tests (any_of (λ (l : Text). ltb limit (length l)) ls) (ltb limit (length r)) h
  where
    by_tests :
        (long over : Bool)
        → (if long
            then broken long_line
            else if over
            then broken unterminated
            else left r (frames_of ls))
          ≡ left y fs
        → (long ≡ false) × (over ≡ false) × (r ≡ y) × (frames_of ls ≡ fs)
    by_tests true over k = cc
    by_tests false true k = cc
    by_tests false false k = (refl, refl, ap left_buffer k, ap left_frames k)

line_frames-within :
    (limit : ℕ) (p : List Text × Text)
    → any_of (λ (l : Text). ltb limit (length l)) p.0 ≡ false
    → ltb limit (length p.1) ≡ false
    → line_frames limit false p ≡ left p.1 (frames_of p.0)
line_frames-within limit (ls, r) h k = rw (h, k) refl

split_lines-length : (x : Text) → length (split_lines x).1 ≤ length x
unfolding split_lines
split_lines-length [] = omega arith
split_lines-length (c ∷ s) = elim (Bool-cases (c == b'\n')) [
  | inl e ↦ rw e (omega (arith, split_lines-length s))
  | inr e ↦ rw e (omega (arith, pushed (split_lines s), split_lines-length s))
]
  where
    pushed : (p : List Text × Text) → length (push_byte c p).1 ≤ suc (length p.1)
    pushed ([], r) = omega arith
    pushed (l ∷ ls, r) = omega arith

or_parts : (a b : Bool) → (a || b) ≡ false → (a ≡ false) × (b ≡ false)
or_parts a b h = ground arith

pub line_loop-Splits :
    (limit : ℕ) (x b y : Text) (fs : List Text)
    → line_loop limit false (x ++ b) ≡ left y fs
    → Splits (line_loop limit false) x b y fs
unfolding line_loop
line_loop-Splits limit x b y fs h = at_lines (split_lines x) refl (
    line_frames-left limit (lines_then (split_lines x) (split_lines b)) y fs
      (ap (line_frames limit false) (sym (split_lines-append x b)) ∙ h))
  where
    long : List Text → Bool
    long = any_of (λ (l : Text). ltb limit (length l))

    at_lines :
        (p : List Text × Text)
        → split_lines x ≡ p
        → (let q = lines_then p (split_lines b) in
            (long q.0 ≡ false)
            × (ltb limit (length q.1) ≡ false)
            × (q.1 ≡ y)
            × (frames_of q.0 ≡ fs))
        → Splits (λ t. line_frames limit false (split_lines t)) x b y fs
    at_lines (ls, r) e (short, within, rest_is, frames_are) =
        let later = push_all r (split_lines b) in
        let (short1, short2) =
          or_parts (long ls) (long later.0)
            (sym (any_of-append (λ (l : Text). ltb limit (length l)) ls later.0) ∙ short) in
        let behind =
          split_lines-append r b
          ∙ ap (λ (p : List Text × Text). lines_then p (split_lines b))
              (subst (λ (p : List Text × Text). split_lines p.1 ≡ ([], p.1)) e
                (split_lines-rest x)) in
        (
          r,
          frames_of ls,
          frames_of later.0,
          subst (λ (p : List Text × Text). length p.1 ≤ length x) e (split_lines-length x),
          ap (line_frames limit false) e
              ∙ line_frames-within limit (ls, r) short1
                  (too_long-push_all limit r (split_lines b) short2 within),
          ap (line_frames limit false) behind
              ∙ line_frames-within limit later short2 within
              ∙ ap (λ (t : Text). left t (frames_of later.0)) rest_is,
          sym frames_are ∙ frames_of-append ls later.0,
        )
