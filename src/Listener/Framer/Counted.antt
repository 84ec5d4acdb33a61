-- ===== src/Listener/Framer/Counted.antt =====
-- listener.py, `feed`: the loop over counted frames.
use mathlib.Core.Path.{ap₂}
use mini_siem.Base.{
  ℕ, zero, suc, ◌+◌, ◌≤◌, ◌≡◌, refl, ap, inl, inr, Bool, true, false, ◌||◌, Option, none, some, [],
  ◌∷◌, arith, ltb, if◌then◌else◌, string_eq, nat_eq, Bool-cases, length, take, drop, length-take_le,
  length-drop, All, Text, text_eq, List, ◌++◌, sym, ◌∙◌, is_some, length-append,
}
use mini_siem.Listener.Framer.{
  Loop, octet_prefix, is_blank, put_frame, octet_loop, too_large, truncated, left, broken,
  out_of_fuel, octet_turn, bad_prefix,
}
use mini_siem.Listener.Framer.Prefixes.{
  octet_prefix-length, extend, octet_prefix-append, octet_prefix-shorter,
}

-- The fuel does not matter when it is at least the length of the buffer.
pub octet_loop-fuel :
    (f g limit : ℕ) (eof : Bool) (b : Text)
    → length b ≤ f
    → length b ≤ g
    → octet_loop f limit eof b ≡ octet_loop g limit eof b
unfolding octet_loop
octet_loop-fuel f g limit eof [] hf hg = refl
octet_loop-fuel zero g limit eof (c ∷ s) hf hg = absurd (omega arith)
octet_loop-fuel (suc f) zero limit eof (c ∷ s) hf hg = absurd (omega arith)
octet_loop-fuel (suc f) (suc g) limit eof (c ∷ s) hf hg =
    at_prefix (octet_prefix (c ∷ s)) refl (octet_loop-fuel f g limit eof)
  where
    at_prefix :
        (o : Option (ℕ × Text))
        → octet_prefix (c ∷ s) ≡ o
        → ((b : Text)
            → length b ≤ f
            → length b ≤ g
            → octet_loop f limit eof b ≡ octet_loop g limit eof b)
        → octet_turn limit eof (c ∷ s) (octet_loop f limit eof) o
          ≡ octet_turn limit eof (c ∷ s) (octet_loop g limit eof) o
    at_prefix none q ih = refl
    at_prefix (some (size, rest)) q ih =
        let short = octet_prefix-length (c ∷ s) size rest q in
        let same =
          ih (drop size rest) (omega (arith, short.0, length-drop size rest))
            (omega (arith, short.0, length-drop size rest)) in
        ap
          (λ (l : Loop). elim (ltb limit size) [
            | true ↦ broken too_large
            | false ↦ elim (ltb (length rest) size) [
              | true ↦ if eof then broken truncated else left (c ∷ s) []
              | false ↦ put_frame (take size rest) l
            ]
          ])
          same

-- what can be said of a loop with the whole buffer for fuel
abbrev pub Sized : ℕ → Loop → Type 0
Sized limit (left b fs) = (length b ≤ limit + 11) × All (λ (x : Text). length x ≤ limit) fs
Sized limit (broken e) = Unit
Sized limit out_of_fuel = ⊥

put_frame-Sized :
    (limit : ℕ) (frame : Text) (l : Loop)
    → length frame ≤ limit
    → Sized limit l
    → Sized limit (put_frame frame l)
put_frame-Sized limit frame (broken e) h k = tt
put_frame-Sized limit frame out_of_fuel h k = k
put_frame-Sized limit frame (left b fs) h k = elim (Bool-cases (is_blank frame)) [
  | inl e ↦ rw e k
  | inr e ↦ rw e (k.0, (h, k.1))
]

-- With the length of the buffer for fuel the loop ends, its frames are within the limit, and it
-- leaves less than a frame.
pub octet_loop-Sized :
    (f limit : ℕ) (eof : Bool) (b : Text) → length b ≤ f → Sized limit (octet_loop f limit eof b)
unfolding octet_loop
octet_loop-Sized f limit eof [] h = (omega arith, tt)
octet_loop-Sized zero limit eof (c ∷ s) h = absurd (omega arith)
octet_loop-Sized (suc f) limit eof (c ∷ s) h =
    at_prefix (octet_prefix (c ∷ s)) refl (octet_loop-Sized f limit eof)
  where
    at_eof :
        (e : Bool)
        → length (c ∷ s) ≤ limit + 11
        → Sized limit (if e then broken truncated else left (c ∷ s) [])
    at_eof true le = tt
    at_eof false le = (le, tt)

    by_tests :
        (size : ℕ) (rest : Text) (x y : Bool)
        → ltb limit size ≡ x
        → ltb (length rest) size ≡ y
        → length (c ∷ s) ≤ length rest + 11
        → Sized limit (octet_loop f limit eof (drop size rest))
        → Sized limit (elim x [
          | true ↦ broken too_large
          | false ↦ elim y [
            | true ↦ if eof then broken truncated else left (c ∷ s) []
            | false ↦ put_frame (take size rest) (octet_loop f limit eof (drop size rest))
          ]
        ])
    by_tests size rest true y ex ey le h = tt
    by_tests size rest false true ex ey le h = at_eof eof (ground (arith, ex, ey))
    by_tests size rest false false ex ey le h =
        put_frame-Sized limit (take size rest) (octet_loop f limit eof (drop size rest))
          (ground (arith, ex, length-take_le size rest)) h

    at_prefix :
        (o : Option (ℕ × Text))
        → octet_prefix (c ∷ s) ≡ o
        → ((b : Text) → length b ≤ f → Sized limit (octet_loop f limit eof b))
        → Sized limit (octet_turn limit eof (c ∷ s) (octet_loop f limit eof) o)
    at_prefix none q ih = elim (Bool-cases (eof || ltb 11 (length (c ∷ s)))) [
      | inl e ↦ rw e tt
      | inr e ↦ rw e (ground arith, tt)
    ]
    at_prefix (some (size, rest)) q ih =
        let short = octet_prefix-length (c ∷ s) size rest q in
        by_tests size rest (ltb limit size) (ltb (length rest) size) refl refl short.1
          (ih (drop size rest) (omega (arith, short.0, length-drop size rest)))

abbrev pub left_buffer : Loop → Text
left_buffer (left b fs) = b
left_buffer _ = []

abbrev pub left_frames : Loop → List Text
left_frames (left b fs) = fs
left_frames _ = []

-- a loop that ended well over two texts at once ends well over the one and then the other, with the
-- same frames and the same rest
abbrev pub Splits : (Text → Loop) → Text → Text → Text → List Text → Type 0
Splits loop x b y fs =
    (x' : Text) × (f1 : List Text) × (f2 : List Text) × (length x' ≤ length x)
    × (loop x ≡ left x' f1)
    × (loop (x' ++ b) ≡ left y f2)
    × (fs ≡ f1 ++ f2)

abbrev put_front : Text → List Text → List Text
put_front frame fs = if is_blank frame then fs else frame ∷ fs

put_front-append :
    (frame : Text) (f1 f2 : List Text) → put_front frame (f1 ++ f2) ≡ put_front frame f1 ++ f2
put_front-append frame f1 f2 = elim (Bool-cases (is_blank frame)) [
  | inl e ↦ rw e refl
  | inr e ↦ rw e refl
]

put_frame-left :
    (frame : Text) (l : Loop) (y : Text) (fs : List Text)
    → put_frame frame l ≡ left y fs
    → (l ≡ left y (left_frames l)) × (put_front frame (left_frames l) ≡ fs)
put_frame-left frame (left b gs) y fs h =
    (ap (λ (t : Text). left t gs) (ap left_buffer h), ap left_frames h)
put_frame-left frame (broken e) y fs h = cc
put_frame-left frame out_of_fuel y fs h = cc

take-append : (n : ℕ) (x b : Text) → n ≤ length x → take n (x ++ b) ≡ take n x
take-append zero x b h = refl
take-append (suc n) [] b h = absurd (omega arith)
take-append (suc n) (c ∷ s) b h = ap (λ (t : Text). c ∷ t) (take-append n s b (omega arith))

drop-append : (n : ℕ) (x b : Text) → n ≤ length x → drop n (x ++ b) ≡ drop n x ++ b
drop-append zero x b h = refl
drop-append (suc n) [] b h = absurd (omega arith)
drop-append (suc n) (c ∷ s) b h = drop-append n s b (omega arith)

abbrev turn_at : ℕ → ℕ → Text → Option (ℕ × Text) → Loop
turn_at f limit b o = octet_turn limit false b (octet_loop f limit false) o

abbrev tested : Bool → Bool → Text → Loop → Loop
tested big short b l = elim big [
  | true ↦ broken too_large
  | false ↦ elim short [ true ↦ left b [] | false ↦ l ]
]

-- a buffer from which nothing is taken
stays :
    (loop : Text → Loop) (x b y : Text) (fs : List Text)
    → loop x ≡ left x []
    → loop (x ++ b) ≡ left y fs
    → Splits loop x b y fs
stays loop x b y fs here h = (x, [], fs, omega arith, here, h, refl)

pub octet_loop-Splits :
    (f limit : ℕ) (x b y : Text) (fs : List Text)
    → length x + length b ≤ f
    → octet_loop f limit false (x ++ b) ≡ left y fs
    → Splits (octet_loop f limit false) x b y fs
unfolding octet_loop
octet_loop-Splits f limit [] b y fs le h = stays (octet_loop f limit false) [] b y fs refl h
octet_loop-Splits zero limit (c ∷ s) b y fs le h = absurd (omega arith)
octet_loop-Splits (suc f) limit (c ∷ s) b y fs le h =
    at_prefix (octet_prefix (c ∷ s)) refl (octet_loop-Splits f limit)
  where
    x : Text
    x = c ∷ s

    go : Text → Loop
    go = octet_loop (suc f) limit false

    broken_left :
        (long : Bool)
        → long ≡ true
        → (if long then broken bad_prefix else left (x ++ b) []) ≡ left y fs
        → ⊥
    broken_left true e k = cc
    broken_left false e k = cc

    some_none : (o : Option (ℕ × Text)) → is_some o ≡ true → o ≡ none → ⊥
    some_none none u v = cc
    some_none (some p) u v = cc

    none_turn :
        octet_prefix x ≡ none
        → (o : Option (ℕ × Text)) → octet_prefix (x ++ b) ≡ o
        → (long : Bool) → ltb 11 (length x) ≡ long
        → turn_at f limit (x ++ b) o ≡ left y fs
        → (if long then broken bad_prefix else left x []) ≡ left x []
    none_turn q o q' false l k = refl
    none_turn q none q' true l k =
        absurd (broken_left (ltb 11 (length (x ++ b))) (ground (arith, l, length-append x b)) k)
    none_turn q (some (size, rest)) q' true l k =
        elim (octet_prefix-shorter x b (ap (λ (o : Option (ℕ × Text)). is_some o) q')) [
          | inl u ↦ absurd (some_none (octet_prefix x) u q)
          | inr u ↦ absurd (ground (arith, l, u.1))
        ]

    tests_of :
        (size : ℕ) (rest t : Text) {big short : Bool}
        → ltb limit size ≡ big
        → ltb (length rest) size ≡ short
        → turn_at f limit t (some (size, rest))
          ≡ tested big short t
              (put_frame (take size rest) (octet_loop f limit false (drop size rest)))
    tests_of size rest t e1 e2 =
        ap₂
          (λ (u v : Bool).
            tested u v t (put_frame (take size rest) (octet_loop f limit false (drop size rest))))
          e1 e2

    at_tests :
        (size : ℕ) (rest : Text)
        → octet_prefix x ≡ some (size, rest)
        → ((x b y : Text) (fs : List Text)
            → length x + length b ≤ f
            → octet_loop f limit false (x ++ b) ≡ left y fs
            → Splits (octet_loop f limit false) x b y fs)
        → (big short : Bool) → ltb limit size ≡ big
        → ltb (length rest) size ≡ short
        → turn_at f limit (x ++ b) (some (size, rest ++ b)) ≡ left y fs
        → Splits go x b y fs
    at_tests size rest q ih true short e1 e2 k =
        absurd (too_big (sym (tests_of size (rest ++ b) (x ++ b) e1 refl) ∙ k))
      where
        too_big : broken too_large ≡ left y fs → ⊥
        too_big m = cc
    at_tests size rest q ih false true e1 e2 k =
        stays go x b y fs (ap (turn_at f limit x) q ∙ tests_of size rest x e1 e2) h
    at_tests size rest q ih false false e1 e2 k =
        let frame = take size rest in
        let enough : size ≤ length rest = ground (arith, e2) in
        let covered : ltb (length (rest ++ b)) size ≡ false =
          ground (arith, enough, length-append rest b) in
        let turned =
          ap₂ (λ (frame t : Text). put_frame frame (octet_loop f limit false t))
            (sym (take-append size rest b enough)) (sym (drop-append size rest b enough))
          ∙ sym (tests_of size (rest ++ b) (x ++ b) e1 covered)
          ∙ k in
        let parts =
          put_frame-left frame (octet_loop f limit false (drop size rest ++ b)) y fs turned in
        let short = (octet_prefix-length x size rest q).0 in
        let (x', f1, f2, le', now, later, split) =
          ih (drop size rest) b y (left_frames (octet_loop f limit false (drop size rest ++ b)))
            (omega (arith, le, short, length-drop size rest)) parts.0 in
        (
          x',
          put_front frame f1,
          f2,
          omega (arith, le', short, length-drop size rest),
          ap (turn_at f limit x) q ∙ tests_of size rest x e1 e2 ∙ ap (put_frame frame) now,
          octet_loop-fuel (suc f) f limit false (x' ++ b)
                (omega (arith, length-append x' b, le, le', short, length-drop size rest))
                (omega (arith, length-append x' b, le, le', short, length-drop size rest))
              ∙ later,
          sym parts.1 ∙ ap (put_front frame) split ∙ put_front-append frame f1 f2,
        )

    at_prefix :
        (o : Option (ℕ × Text))
        → octet_prefix x ≡ o
        → ((x b y : Text) (fs : List Text)
            → length x + length b ≤ f
            → octet_loop f limit false (x ++ b) ≡ left y fs
            → Splits (octet_loop f limit false) x b y fs)
        → Splits go x b y fs
    at_prefix none q ih =
        stays go x b y fs
          (ap (turn_at f limit x) q
            ∙ none_turn q (octet_prefix (x ++ b)) refl (ltb 11 (length x)) refl h)
          h
    at_prefix (some (size, rest)) q ih =
        let longer =
          octet_prefix-append x b (ap (λ (o : Option (ℕ × Text)). is_some o) q) ∙ ap (extend b) q in
        at_tests size rest q ih (ltb limit size) (ltb (length rest) size) refl refl
          (sym (ap (turn_at f limit (x ++ b)) longer) ∙ h)
