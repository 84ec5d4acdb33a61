-- ===== src/Listener/Framer/Chunks.antt =====
-- listener.py, `feed`: how the bytes of a connection are cut into chunks does not matter.
use mathlib.Core.List.{append-nil, append_assoc}
use mini_siem.Listener.Framer.Prefixes.{
  clash, octet_prefix-shorter, mode_of-append, is_partial-elem,
}
use mini_siem.Base.{
  ℕ, ◌+◌, ◌≡◌, refl, sym, ap, ◌∙◌, inl, inr, true, false, some, List, [], ◌∷◌, ◌++◌, arith, ltb,
  string_eq, nat_eq, ◌==◌, Bool-cases, length, length-append, Text, text_eq, elem, Bool, ◌&&◌,
  Option, none, if◌then◌else◌, is_some,
}
use mini_siem.Listener.Framer.{
  Framer, Mode, Loop, Fed, select_mode, octet_loop, split_lines, line_frames, line_loop, feed_loop,
  feed_mode, feed, octet, newline, unterminated, left, broken, out_of_fuel, fed, raised, no_end,
  octet_prefix, is_partial, mode_of, undecided, deliver, handle_fed, handle_tcp_client, End,
}
use mini_siem.Listener.Framer.Counted.{Splits, octet_loop-fuel, octet_loop-Splits}
use mini_siem.Listener.Framer.Lines.{line_loop-Splits}

-- the loop of a mode
abbrev loop_of : ℕ → Mode → Text → Loop
loop_of limit octet b = octet_loop (length b) limit false b
loop_of limit newline b = line_loop limit false b

loop_of-Splits :
    (limit : ℕ) (m : Mode) (x b y : Text) (fs : List Text)
    → loop_of limit m (x ++ b) ≡ left y fs
    → Splits (loop_of limit m) x b y fs
loop_of-Splits limit newline x b y fs h = line_loop-Splits limit x b y fs h
loop_of-Splits limit octet x b y fs h =
    let f = length x + length b in
    let (x', f1, f2, le, now, later, split) = octet_loop-Splits f limit x b y fs (omega arith) (
      octet_loop-fuel f (length (x ++ b)) limit false (x ++ b) (omega (arith, length-append x b))
        (omega arith)
      ∙ h) in
    (
      x',
      f1,
      f2,
      le,
      octet_loop-fuel (length x) f limit false x (omega arith) (omega arith) ∙ now,
      octet_loop-fuel (length (x' ++ b)) f limit false (x' ++ b) (omega arith)
            (omega (arith, length-append x' b, le))
          ∙ later,
      split,
    )

fed_framer : Fed → Framer → Framer
fed_framer (fed f fs) g = f
fed_framer (raised e) g = g
fed_framer no_end g = g

fed_frames : Fed → List Text
fed_frames (fed f fs) = fs
fed_frames (raised e) = []
fed_frames no_end = []

-- A feed that ended well over two chunks at once: the one and then the other give the same.
abbrev pub Agrees : ℕ → Fed → Text → Framer → List Text → Type 0
Agrees limit first b f' fs =
    (f1 : Framer) × (fs1 : List Text) × (fs2 : List Text) × (first ≡ fed f1 fs1)
    × (feed limit b false f1 ≡ fed f' fs2)
    × (fs ≡ fs1 ++ fs2)

feed_mode-loop_of :
    (limit : ℕ) (m : Mode) (b : Text)
    → feed_mode limit false (some m) b ≡ feed_loop m (loop_of limit m b)
feed_mode-loop_of limit octet b = refl
feed_mode-loop_of limit newline b = refl

fixed-Agrees :
    (limit : ℕ) (m : Mode) (x b : Text) (f' : Framer) (fs : List Text)
    → feed_mode limit false (some m) (x ++ b) ≡ fed f' fs
    → Agrees limit (feed_mode limit false (some m) x) b f' fs
unfolding feed select_mode fed_framer fed_frames
fixed-Agrees limit m x b f' fs h =
    at_loop (loop_of limit m (x ++ b)) refl (sym (feed_mode-loop_of limit m (x ++ b)) ∙ h)
  where
    at_loop :
        (l : Loop)
        → loop_of limit m (x ++ b) ≡ l
        → feed_loop m l ≡ fed f' fs
        → Agrees limit (feed_mode limit false (some m) x) b f' fs
    at_loop (broken e) q k = cc
    at_loop out_of_fuel q k = cc
    at_loop (left y gs) q k =
        let (x', f1, f2, le, now, later, split) = loop_of-Splits limit m x b y gs q in
        (
          record { buffer = x'; mode = some m },
          f1,
          f2,
          feed_mode-loop_of limit m x ∙ ap (feed_loop m) now,
          feed_mode-loop_of limit m (x' ++ b)
              ∙ ap (feed_loop m) later
              ∙ ap (λ (g : Framer). fed g f2) (ap (λ (r : Fed). fed_framer r f') k),
          sym (ap fed_frames k) ∙ split,
        )

no_newline : (x : Text) → elem b'\n' x ≡ false → split_lines x ≡ ([], x)
unfolding split_lines
no_newline [] h = refl
no_newline (c ∷ s) h = elim (Bool-cases (c == b'\n')) [
  | inl e ↦ absurd (ground (arith, h, e))
  | inr e ↦ rw (e, no_newline s (ground (arith, h, e))) refl
]

-- A line with no end in sight that is too long ends every feed.
long_line-fails :
    (limit : ℕ) (x b y : Text) (fs : List Text)
    → elem b'\n' x ≡ false
    → ltb limit (length x) ≡ true
    → line_loop limit false (x ++ b) ≡ left y fs
    → ⊥
unfolding line_loop
long_line-fails limit x b y fs e l h =
    let (x', f1, f2, le, now, later, split) = line_loop-Splits limit x b y fs h in
    fails (split_lines x) (no_newline x e) now
  where
    fails :
        (p : List Text × Text)
        → p ≡ ([], x)
        → {z : Text} {gs : List Text} → line_frames limit false p ≡ left z gs
        → ⊥
    fails p q k =
        let k' : broken unterminated ≡ left _ _ =
          sym (ap (line_frames limit false) q ∙ rw l refl) ∙ k in
        cc

mode_of-none :
    (b : Text) → mode_of false b ≡ none → (is_some (octet_prefix b) ≡ false) × (is_partial b ≡ true)
mode_of-none b h = by_tests (is_some (octet_prefix b)) (is_partial b) h
  where
    by_tests :
        (p q : Bool)
        → (if p then some octet else if q && true then none else some newline) ≡ none
        → (p ≡ false) × (q ≡ true)
    by_tests true q k = cc
    by_tests false true k = (refl, refl)
    by_tests false false k = cc

mode_of-octet : (b : Text) → mode_of false b ≡ some octet → is_some (octet_prefix b) ≡ true
mode_of-octet b h = by_tests (is_some (octet_prefix b)) (is_partial b) h
  where
    by_tests :
        (p q : Bool)
        → (if p then some octet else if q && true then none else some newline) ≡ some octet
        → p ≡ true
    by_tests true q k = refl
    by_tests false true k = cc
    by_tests false false k = cc

-- A buffer of no mode yet is within the bound when more bytes do not raise.
undecided_fits :
    (limit : ℕ) (x b : Text) (f' : Framer) (fs : List Text) (o : Option Mode)
    → is_some (octet_prefix x) ≡ false
    → is_partial x ≡ true
    → mode_of false (x ++ b) ≡ o
    → feed_mode limit false o (x ++ b) ≡ fed f' fs
    → ltb (limit + 11) (length x) ≡ false
undecided_fits limit x b f' fs none e p q h = elim (Bool-cases (ltb (limit + 11) (length x))) [
  | inr r ↦ r
  | inl r ↦
      absurd (raises (ltb (limit + 11) (length (x ++ b))) (ground (arith, r, length-append x b)) h)
]
  where
    raises :
        (long : Bool)
        → long ≡ true
        → (if long then raised undecided else fed (record { buffer = x ++ b; mode = none }) [])
          ≡ fed f' fs
        → ⊥
    raises true l k = cc
    raises false l k = cc
undecided_fits limit x b f' fs (some octet) e p q h =
    elim (octet_prefix-shorter x b (mode_of-octet (x ++ b) q)) [
      | inl u ↦ absurd (clash (is_some (octet_prefix x)) u e)
      | inr u ↦ ground (arith, u.1)
    ]
undecided_fits limit x b f' fs (some newline) e p q h =
    elim (Bool-cases (ltb (limit + 11) (length x))) [
      | inr r ↦ r
      | inl r ↦ absurd (at_loop (line_loop limit false (x ++ b)) refl (ground (arith, r)) h)
    ]
  where
    at_loop :
        (l : Loop)
        → line_loop limit false (x ++ b) ≡ l
        → ltb limit (length x) ≡ true
        → feed_loop newline l ≡ fed f' fs
        → ⊥
    at_loop (left y gs) u v k = long_line-fails limit x b y gs (is_partial-elem x p) v u
    at_loop (broken w) u v k = cc
    at_loop out_of_fuel u v k = cc

-- One feed of two chunks that does not raise gives what the two feeds give.
pub feed-append :
    (limit : ℕ) (a b : Text) (f f' : Framer) (fs : List Text)
    → feed limit (a ++ b) false f ≡ fed f' fs
    → Agrees limit (feed limit a false f) b f' fs
unfolding feed select_mode
feed-append limit a b f f' fs h = at_mode f.mode (f.buffer ++ a) (
    ap (λ (t : Text). feed_mode limit false (select_mode false f.mode t) t)
      (append_assoc f.buffer a b)
    ∙ h)
  where
    at_partial :
        (c : ℕ) (s : Text) (o : Option Mode)
        → mode_of false (c ∷ s) ≡ o
        → feed_mode limit false (mode_of false (c ∷ (s ++ b))) (c ∷ (s ++ b)) ≡ fed f' fs
        → Agrees limit (feed_mode limit false o (c ∷ s)) b f' fs
    at_partial c s (some m) q k = fixed-Agrees limit m (c ∷ s) b f' fs (
        ap (λ (o : Option Mode). feed_mode limit false o (c ∷ (s ++ b)))
          (sym (mode_of-append c s b m q))
        ∙ k)
    at_partial c s none q k =
        let (e, p) = mode_of-none (c ∷ s) q in
        let fits = undecided_fits limit (c ∷ s) b f' fs (mode_of false (c ∷ (s ++ b))) e p refl k in
        (record { buffer = c ∷ s; mode = none }, [], fs, rw fits refl, k, refl)

    at_mode :
        (o : Option Mode) (x : Text)
        → feed_mode limit false (select_mode false o (x ++ b)) (x ++ b) ≡ fed f' fs
        → Agrees limit (feed_mode limit false (select_mode false o x) x) b f' fs
    at_mode (some m) x k = fixed-Agrees limit m x b f' fs k
    at_mode none [] k = (
      record { buffer = []; mode = none },
      [],
      fs,
      nothing (ltb (limit + 11) 0) (ground arith),
      k,
      refl,
    )
      where
        nothing :
            (long : Bool)
            → long ≡ false
            → (if long then raised undecided else fed (record { buffer = []; mode = none }) [])
              ≡ fed (record { buffer = []; mode = none }) []
        nothing true e = cc
        nothing false e = refl
    at_mode none (c ∷ s) k = at_partial c s (mode_of false (c ∷ s)) refl k

-- the bytes of the chunks
abbrev pub join : List Text → Text
join [] = []
join (x ∷ xs) = x ++ join xs

deliver-append :
    (fs gs : List Text) (p : List Text × End) → deliver (fs ++ gs) p ≡ deliver fs (deliver gs p)
deliver-append fs gs (hs, e) = ap (λ (xs : List Text). (xs, e)) (append_assoc fs gs hs)

handle-join :
    (limit : ℕ) (chunk : Text) (chunks : List Text) (f f' : Framer) (fs : List Text)
    → feed limit (join (chunk ∷ chunks)) false f ≡ fed f' fs
    → handle_tcp_client limit (chunk ∷ chunks) f ≡ deliver fs (handle_tcp_client limit [] f')
unfolding handle_tcp_client
handle-join limit chunk [] f f' fs h =
    ap (handle_fed (handle_tcp_client limit []))
      (sym (ap (λ (t : Text). feed limit t false f) (append-nil chunk)) ∙ h)
handle-join limit chunk (next ∷ chunks) f f' fs h =
    let (f1, fs1, fs2, now, later, split) =
      feed-append limit chunk (join (next ∷ chunks)) f f' fs h in
    ap (handle_fed (handle_tcp_client limit (next ∷ chunks))) now
    ∙ ap (deliver fs1) (handle-join limit next chunks f1 f' fs2 later)
    ∙ sym (deliver-append fs1 fs2 (handle_tcp_client limit [] f'))
    ∙ ap (λ (gs : List Text). deliver gs (handle_tcp_client limit [] f')) (sym split)

-- However the bytes of a connection are cut into chunks: where the framer takes them in one piece,
-- the messages delivered, and how the connection ends, are those of the one piece.
pub handle_tcp_client-join :
    (limit : ℕ) (chunk : Text) (chunks : List Text) (f f' : Framer) (fs : List Text)
    → feed limit (join (chunk ∷ chunks)) false f ≡ fed f' fs
    → handle_tcp_client limit (chunk ∷ chunks) f
      ≡ handle_tcp_client limit (join (chunk ∷ chunks) ∷ []) f
unfolding handle_tcp_client
handle_tcp_client-join limit chunk chunks f f' fs h =
    handle-join limit chunk chunks f f' fs h ∙ sym (ap (handle_fed (handle_tcp_client limit [])) h)
