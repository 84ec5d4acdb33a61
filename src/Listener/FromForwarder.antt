-- ===== src/Listener/FromForwarder.antt =====
-- listener.py behind forwarder.py: what `_send_tcp` writes, `_SyslogTCPFramer` reads.
use native.Mathlib.Nat.{pow-succ'}
use mathlib.Core.List.{append_assoc, append-nil}
use mathlib.Core.Path.{ap₂}
use mini_siem.Base.{
  ℕ, zero, suc, ◌+◌, ◌-◌, ◌*◌, ◌^◌, ◌≤◌, ◌<◌, ◌≡◌, refl, ap, true, false, not, ◌&&◌, [], ◌∷◌, ◌++◌,
  arith, ltb, string_eq, nat_eq, ◌==◌, length, take, drop, Text, text_eq, ◌/◌, ◌%◌, inl, inr, Bool,
  Bool-cases, sym, ◌∙◌, some, List, length-append, All, codes, Option, none, if◌then◌else◌, is_some,
  any_of, elem,
}
use mini_siem.Forwarder.Framing.{framed, digits, decimal, send_all}
use mini_siem.Listener.Framer.{
  feed, is_digit, prefix_rest, octet_prefix, octet_turn, octet_loop, is_blank, put_frame, octet,
  too_large, left, broken, is_partial, select_mode, feed_loop, feed_mode, handle_tcp_client,
  new_framer, Mode, newline, fed, at_eof, split_lines, frames_of, line_frames, line_loop,
  feed_undecided, deliver, last_frames, handle_fed, Loop, long_line, unterminated, undecided,
  raised,
}
use mini_siem.Listener.Framer.Chunks.{join, handle_tcp_client-join}

take-append : (x y : Text) → take (length x) (x ++ y) ≡ x
take-append [] y = refl
take-append (c ∷ s) y = ap (λ (t : Text). c ∷ t) (take-append s y)

drop-append : (x y : Text) → drop (length x) (x ++ y) ≡ y
drop-append [] y = refl
drop-append (c ∷ s) y = drop-append s y

first_digit :
    (n : ℕ) (t : Text) → 0 < n → n < 10 → octet_prefix ((b'0' + n) ∷ t) ≡ prefix_rest 9 n t
unfolding octet_prefix
first_digit n t pos le =
    let digit : (is_digit (b'0' + n) && not ((b'0' + n) == b'0')) ≡ true = ground arith in
    let back : b'0' + n - b'0' ≡ n = omega arith in rw (digit, back) refl

next_digit :
    (k size d : ℕ) (t : Text)
    → d < 10
    → prefix_rest (suc k) size ((b'0' + d) ∷ t) ≡ prefix_rest k (size * 10 + d) t
unfolding prefix_rest
next_digit k size d t le = ground arith

digits_one : (fuel n : ℕ) → ltb n 10 ≡ true → digits (suc fuel) n ≡ (b'0' + n) ∷ []
unfolding digits
digits_one fuel n e = rw (e, digits) refl

digits_more :
    (fuel n : ℕ)
    → ltb n 10 ≡ false
    → digits (suc fuel) n ≡ digits fuel (n / 10) ++ (b'0' + n % 10) ∷ []
unfolding digits
digits_more fuel n e = rw (e, digits) refl

-- The digits of a number of at most `suc j` digits are read, with `k` of the ten to spare.
octet_prefix-digits :
    (fuel j n : ℕ) (t : Text)
    → 0 < n
    → n ≤ fuel
    → n < 10 ^ suc j
    → j ≤ 9
    → (k : ℕ) × (9 - j ≤ k) × (octet_prefix (digits fuel n ++ t) ≡ prefix_rest k n t)
octet_prefix-digits zero j n t pos le small few = absurd (omega arith)
octet_prefix-digits (suc fuel) zero n t pos le small few =
    let e : ltb n 10 ≡ true = ground arith in
    (
      9,
      omega arith,
      ap (λ (s : Text). octet_prefix (s ++ t)) (digits_one fuel n e)
          ∙ first_digit n t pos (omega arith),
    )
octet_prefix-digits (suc fuel) (suc j) n t pos le small few = elim (Bool-cases (ltb n 10)) [
  | inl e ↦ (
    9,
    omega arith,
    ap (λ (s : Text). octet_prefix (s ++ t)) (digits_one fuel n e)
        ∙ first_digit n t pos (ground arith),
  )
  | inr e ↦
      let big : 10 ≤ n = ground arith in
      let less : n / 10 < 10 ^ suc j = omega (arith, pow-succ' 10 (suc j)) in
      let last = (b'0' + n % 10) ∷ t in
      let (k, room, reads) =
        octet_prefix-digits fuel j (n / 10) last (omega arith) (omega arith) less (omega arith) in
      let back : n / 10 * 10 + n % 10 ≡ n = omega arith in
      (
        k - 1,
        omega arith,
        ap (λ (s : Text). octet_prefix (s ++ t)) (digits_more fuel n e)
            ∙ ap octet_prefix (append_assoc (digits fuel (n / 10)) ((b'0' + n % 10) ∷ []) t)
            ∙ reads
            ∙ ap (λ (m : ℕ). prefix_rest m (n / 10) last) (sym (pred (omega arith)))
            ∙ next_digit (k - 1) (n / 10) (n % 10) t (omega arith)
            ∙ ap (λ (m : ℕ). prefix_rest (k - 1) m t) back,
      )
]
  where
    pred : {k : ℕ} → 0 < k → suc (k - 1) ≡ k
    pred h = omega arith

-- A count that is written is read.
octet_prefix-decimal :
    (n : ℕ) (t : Text)
    → 0 < n
    → n < 10000000000
    → octet_prefix (decimal n ++ b' ' ∷ t) ≡ some (n, t)
unfolding prefix_rest
octet_prefix-decimal n t pos small =
    (octet_prefix-digits n 9 n (b' ' ∷ t) pos (omega arith) small (omega arith)).2

octet_loop-prefix :
    (fuel limit : ℕ) (eof : Bool) (b : Text) (size : ℕ) (rest : Text)
    → octet_prefix b ≡ some (size, rest)
    → octet_loop (suc fuel) limit eof b
      ≡ octet_turn limit eof b (octet_loop fuel limit eof) (some (size, rest))
unfolding octet_loop octet_prefix
octet_loop-prefix fuel limit eof [] size rest h = cc
octet_loop-prefix fuel limit eof (c ∷ s) size rest h =
    ap (octet_turn limit eof (c ∷ s) (octet_loop fuel limit eof)) h

-- a message that a listener of the limit delivers
abbrev pub Deliverable : ℕ → Text → Type 0
Deliverable limit m = (is_blank m ≡ false) × (length m ≤ limit)

not_empty : (m : Text) → is_blank m ≡ false → 0 < length m
not_empty [] h = cc
not_empty (c ∷ s) h = omega arith

octet_loop-framed :
    (fuel limit : ℕ) (m t : Text)
    → limit < 10000000000
    → Deliverable limit m
    → octet_loop (suc fuel) limit false (decimal (length m) ++ b' ' ∷ (m ++ t))
      ≡ put_frame m (octet_loop fuel limit false t)
octet_loop-framed fuel limit m t small (solid, fits) =
    let b = decimal (length m) ++ b' ' ∷ (m ++ t) in
    octet_loop-prefix fuel limit false b (length m) (m ++ t)
      (octet_prefix-decimal (length m) (m ++ t) (not_empty m solid) (omega arith))
    ∙ turn b (ltb limit (length m)) (ltb (length (m ++ t)) (length m)) (ground arith)
        (ground (arith, length-append m t))
    ∙ ap₂ (λ (x y : Text). put_frame x (octet_loop fuel limit false y)) (take-append m t)
        (drop-append m t)
  where
    turn :
        (b : Text) (large short : Bool)
        → large ≡ false
        → short ≡ false
        → (elim large [
          | true ↦ broken too_large
          | false ↦ elim short [
            | true ↦ left b []
            | false ↦
                put_frame
                  (take (length m) (m ++ t))
                  (octet_loop fuel limit false (drop (length m) (m ++ t)))
          ]
        ])
          ≡ put_frame
              (take (length m) (m ++ t))
              (octet_loop fuel limit false (drop (length m) (m ++ t)))
    turn b true short e1 e2 = cc
    turn b false true e1 e2 = cc
    turn b false false e1 e2 = refl

-- The whole of what is sent with counts is read back.
octet_loop-send_all :
    (fuel limit : ℕ) (ms : List Text)
    → limit < 10000000000
    → All (Deliverable limit) ms
    → length ms ≤ fuel
    → octet_loop fuel limit false (send_all (codes "octet") ms) ≡ left [] ms
unfolding send_all framed octet_loop
octet_loop-send_all fuel limit [] small h le = refl
octet_loop-send_all zero limit (m ∷ ms) small h le = absurd (omega arith)
octet_loop-send_all (suc fuel) limit (m ∷ ms) small (h, hs) le =
    ap (octet_loop (suc fuel) limit false)
      (append_assoc (decimal (length m)) (b' ' ∷ m) (send_all (codes "octet") ms))
    ∙ octet_loop-framed fuel limit m (send_all (codes "octet") ms) small h
    ∙ ap (put_frame m) (octet_loop-send_all fuel limit ms small hs (omega arith))
    ∙ put_solid m ms h.0
  where
    put_solid :
        (m : Text) (ms : List Text)
        → is_blank m ≡ false
        → put_frame m (left [] ms) ≡ left [] (m ∷ ms)
    put_solid m ms e = rw e refl

-- Each message has a byte at least.
length-send_all : (ms : List Text) → length ms ≤ length (send_all (codes "octet") ms)
unfolding send_all framed
length-send_all [] = omega arith
length-send_all (m ∷ ms) = omega (
  arith,
  length-append (decimal (length m) ++ b' ' ∷ m) (send_all (codes "octet") ms),
  length-append (decimal (length m)) (b' ' ∷ m),
  length-send_all ms,
)

first_mode :
    (b t : Text) (size : ℕ)
    → octet_prefix b ≡ some (size, t)
    → select_mode false none b ≡ some octet
unfolding select_mode octet_prefix
first_mode [] t size h = cc
first_mode (c ∷ s) t size h =
    ap
      (λ (o : Option (ℕ × Text)).
        if is_some o then some octet else if is_partial (c ∷ s) && true then none else some newline)
      h

feed-send_all :
    (limit : ℕ) (m : Text) (ms : List Text)
    → limit < 10000000000
    → All (Deliverable limit) (m ∷ ms)
    → feed limit (send_all (codes "octet") (m ∷ ms)) false new_framer
      ≡ fed (record { buffer = []; mode = some octet }) (m ∷ ms)
unfolding feed send_all framed
feed-send_all limit m ms small h =
    let b = send_all (codes "octet") (m ∷ ms) in
    let rest = m ++ send_all (codes "octet") ms in
    let starts : octet_prefix b ≡ some (length m, rest) =
      ap octet_prefix (append_assoc (decimal (length m)) (b' ' ∷ m) (send_all (codes "octet") ms))
      ∙ octet_prefix-decimal (length m) rest (not_empty m h.0.0) (omega (arith, h.0.1)) in
    ap (λ (o : Option Mode). feed_mode limit false o b) (first_mode b rest (length m) starts)
    ∙ ap (feed_loop octet)
        (octet_loop-send_all (length b) limit (m ∷ ms) small h (length-send_all (m ∷ ms)))

nothing_undecided :
    (limit : ℕ) → feed_undecided limit [] ≡ fed (record { buffer = []; mode = none }) []
nothing_undecided limit = by_test (ltb (limit + 11) 0) (ground arith)
  where
    by_test :
        (long : Bool)
        → long ≡ false
        → (if long then raised undecided else fed (record { buffer = []; mode = none }) [])
          ≡ fed (record { buffer = []; mode = none }) []
    by_test true e = cc
    by_test false e = refl

-- At the end of the stream an empty buffer gives nothing.
end_of_empty :
    (limit : ℕ) (o : Option Mode)
    → handle_tcp_client limit [] (record { buffer = []; mode = o }) ≡ ([], at_eof)
unfolding handle_tcp_client feed select_mode octet_loop line_loop split_lines
end_of_empty limit none = ap last_frames (nothing_undecided limit)
end_of_empty limit (some octet) = refl
end_of_empty limit (some newline) =
    ap (λ (l : Loop). last_frames (feed_loop newline l)) (within (ltb limit 0) (ground arith))
  where
    within :
        (over : Bool)
        → over ≡ false
        → (if over then broken unterminated else left [] []) ≡ left [] []
    within true e = cc
    within false e = refl

all_delivered :
    (limit : ℕ) (fs : List Text) (chunk : Text) (chunks : List Text) (o : Option Mode)
    → feed limit (join (chunk ∷ chunks)) false new_framer
      ≡ fed (record { buffer = []; mode = o }) fs
    → handle_tcp_client limit (chunk ∷ chunks) new_framer ≡ (fs, at_eof)
unfolding handle_tcp_client
all_delivered limit fs chunk chunks o h =
    handle_tcp_client-join limit chunk chunks new_framer (record { buffer = []; mode = o }) fs h
    ∙ ap (handle_fed (handle_tcp_client limit [])) h
    ∙ ap (deliver fs) (end_of_empty limit o)
    ∙ ap (λ (gs : List Text). (gs, at_eof)) (append-nil fs)

-- What the forwarder sends with counts, in whatever chunks it arrives, the listener delivers: the
-- same messages in the same order and nothing else, where no message is blank or larger than the
-- limit and the limit has at most ten digits.
pub send_all-delivered :
    (limit : ℕ) (messages : List Text) (chunk : Text) (chunks : List Text)
    → limit < 10000000000
    → All (Deliverable limit) messages
    → join (chunk ∷ chunks) ≡ send_all (codes "octet") messages
    → handle_tcp_client limit (chunk ∷ chunks) new_framer ≡ (messages, at_eof)
unfolding feed send_all select_mode
send_all-delivered limit [] chunk chunks small h e =
    all_delivered limit [] chunk chunks none
      (ap (λ (t : Text). feed limit t false new_framer) e ∙ nothing_undecided limit)
send_all-delivered limit (m ∷ ms) chunk chunks small h e =
    all_delivered limit (m ∷ ms) chunk chunks (some octet)
      (ap (λ (t : Text). feed limit t false new_framer) e ∙ feed-send_all limit m ms small h)

-- a message that a line carries
abbrev pub IsLine : Text → Type 0
IsLine m = elem b'\n' m ≡ false

split_lines-line :
    (m t : Text)
    → IsLine m
    → split_lines (m ++ b'\n' ∷ t) ≡ (m ∷ (split_lines t).0, (split_lines t).1)
unfolding split_lines
split_lines-line [] t h = refl
split_lines-line (c ∷ s) t h = elim (Bool-cases (c == b'\n')) [
  | inl e ↦ absurd (ground (arith, h, e))
  | inr e ↦ rw (e, split_lines-line s t (ground (arith, h, e))) refl
]

split_lines-send_all :
    (ms : List Text) → All IsLine ms → split_lines (send_all (codes "newline") ms) ≡ (ms, [])
unfolding send_all framed split_lines
split_lines-send_all [] h = refl
split_lines-send_all (m ∷ ms) (h, hs) =
    ap split_lines (append_assoc m (b'\n' ∷ []) (send_all (codes "newline") ms))
    ∙ split_lines-line m (send_all (codes "newline") ms) h
    ∙ ap (λ (p : List Text × Text). (m ∷ p.0, p.1)) (split_lines-send_all ms hs)

not_too_long :
    (limit : ℕ) (ms : List Text)
    → All (Deliverable limit) ms
    → any_of (λ (l : Text). ltb limit (length l)) ms ≡ false
not_too_long limit [] h = refl
not_too_long limit (m ∷ ms) h = ground (arith, not_too_long limit ms h.1, h.0.1)

frames_solid : (limit : ℕ) (ms : List Text) → All (Deliverable limit) ms → frames_of ms ≡ ms
frames_solid limit [] h = refl
frames_solid limit (m ∷ ms) h =
    rw (h.0.0) (ap (λ (xs : List Text). m ∷ xs) (frames_solid limit ms h.1))

line_loop-send_all :
    (limit : ℕ) (ms : List Text)
    → All (Deliverable limit) ms
    → All IsLine ms
    → line_loop limit false (send_all (codes "newline") ms) ≡ left [] ms
unfolding line_loop
line_loop-send_all limit ms h lines =
    ap (line_frames limit false) (split_lines-send_all ms lines)
    ∙ within (any_of (λ (l : Text). ltb limit (length l)) ms) (ltb limit 0)
        (not_too_long limit ms h) (ground arith)
    ∙ ap (left []) (frames_solid limit ms h)
  where
    within :
        (long over : Bool)
        → long ≡ false
        → over ≡ false
        → (if long
            then broken long_line
            else if over
            then broken unterminated
            else left [] (frames_of ms))
          ≡ left [] (frames_of ms)
    within true over e1 e2 = cc
    within false true e1 e2 = cc
    within false false e1 e2 = refl

-- A message that starts with no digit selects lines.
line_mode : (c : ℕ) (s : Text) → is_digit c ≡ false → select_mode false none (c ∷ s) ≡ some newline
unfolding select_mode octet_prefix is_partial
line_mode c s e = rw e refl

-- The same for messages sent as lines: where no message is blank, larger than the limit or has a
-- line feed in it, and the first does not start with a digit.
pub send_lines-delivered :
    (limit c : ℕ) (m : Text) (messages : List Text) (chunk : Text) (chunks : List Text)
    → is_digit c ≡ false
    → All (Deliverable limit) ((c ∷ m) ∷ messages)
    → All IsLine ((c ∷ m) ∷ messages)
    → join (chunk ∷ chunks) ≡ send_all (codes "newline") ((c ∷ m) ∷ messages)
    → handle_tcp_client limit (chunk ∷ chunks) new_framer ≡ ((c ∷ m) ∷ messages, at_eof)
unfolding feed send_all framed
send_lines-delivered limit c m messages chunk chunks digit h lines e =
    let b = send_all (codes "newline") ((c ∷ m) ∷ messages) in
    all_delivered limit ((c ∷ m) ∷ messages) chunk chunks (some newline) (
      ap (λ (t : Text). feed limit t false new_framer) e
      ∙ ap (λ (o : Option Mode). feed_mode limit false o b)
          (line_mode c ((m ++ b'\n' ∷ []) ++ send_all (codes "newline") messages) digit)
      ∙ ap (feed_loop newline) (line_loop-send_all limit ((c ∷ m) ∷ messages) h lines))
