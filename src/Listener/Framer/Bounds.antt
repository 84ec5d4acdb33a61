-- ===== src/Listener/Framer/Bounds.antt =====
-- listener.py, `_SyslogTCPFramer`: the loops end and hold no more than the limit.
use mini_siem.Base.{
  ℕ, ◌+◌, ◌≤◌, ◌≡◌, refl, ◌≢◌, Bool, true, false, not, ◌&&◌, Option, none, some, List, [], ◌∷◌,
  ◌++◌, arith, ltb, if◌then◌else◌, string_eq, nat_eq, length, any_of, All, All-append, All-keep,
  Text, text_eq,
}
use mini_siem.Listener.Framer.{
  feed, select_mode, is_blank, octet_loop, split_lines, frames_of, line_frames, line_loop,
  feed_loop, feed_undecided, feed_mode, last_frames, handle_fed, handle_tcp_client, Mode, Framer,
  Loop, Fed, End, octet, newline, long_line, unterminated, undecided, left, broken, out_of_fuel,
  fed, raised, no_end, unending,
}
use mini_siem.Listener.Framer.Counted.{Sized, octet_loop-Sized}

-- the frames of a message within the limit
abbrev pub Within : ℕ → List Text → Type 0
Within limit = All (λ (x : Text). length x ≤ limit)

-- A feed that gives frames: within the limit, and a buffer that is one frame and its count at most.
abbrev pub Bounded : ℕ → Fed → Type 0
Bounded limit (fed f fs) = (length f.buffer ≤ limit + 11) × Within limit fs
Bounded limit (raised e) = Unit
Bounded limit no_end = ⊥

lines-Within :
    (limit : ℕ) (ls : List Text)
    → any_of (λ (l : Text). ltb limit (length l)) ls ≡ false
    → Within limit ls
lines-Within limit [] h = tt
lines-Within limit (l ∷ ls) h = (ground (arith, h), lines-Within limit ls (ground (arith, h)))

line_frames-Sized :
    (limit : ℕ) (eof : Bool) (p : List Text × Text) → Sized limit (line_frames limit eof p)
line_frames-Sized limit eof (ls, rest) =
    by_tests (any_of (λ (l : Text). ltb limit (length l)) ls) (ltb limit (length rest))
      (eof && not (is_blank rest)) refl refl
  where
    by_tests :
        (long over last : Bool)
        → any_of (λ (l : Text). ltb limit (length l)) ls ≡ long
        → ltb limit (length rest) ≡ over
        → Sized limit (
            if long
            then broken long_line
            else if over
            then broken unterminated
            else if last
            then left [] (frames_of ls ++ rest ∷ [])
            else left rest (frames_of ls))
    by_tests true over last h k = tt
    by_tests false true last h k = tt
    by_tests false false true h k = (
      omega arith,
      All-append (λ (x : Text). length x ≤ limit) (frames_of ls) (rest ∷ [])
          (All-keep (λ (x : Text). length x ≤ limit) (λ l. not (is_blank l)) ls
            (lines-Within limit ls h))
          (ground (arith, k), tt),
    )
    by_tests false false false h k = (
      ground (arith, k),
      All-keep (λ (x : Text). length x ≤ limit) (λ l. not (is_blank l)) ls
          (lines-Within limit ls h),
    )

feed_loop-Bounded :
    (limit : ℕ) (m : Mode) (l : Loop) → Sized limit l → Bounded limit (feed_loop m l)
feed_loop-Bounded limit m (left b fs) h = h
feed_loop-Bounded limit m (broken e) h = tt
feed_loop-Bounded limit m out_of_fuel h = h

feed_undecided-Bounded : (limit : ℕ) (b : Text) → Bounded limit (feed_undecided limit b)
feed_undecided-Bounded limit b = by_test (ltb (limit + 11) (length b)) refl
  where
    by_test :
        (long : Bool)
        → ltb (limit + 11) (length b) ≡ long
        → Bounded limit
            (if long then raised undecided else fed (record { buffer = b; mode = none }) [])
    by_test true h = tt
    by_test false h = (ground (arith, h), tt)

feed_mode-Bounded :
    (limit : ℕ) (eof : Bool) (o : Option Mode) (b : Text) → Bounded limit (feed_mode limit eof o b)
unfolding line_loop
feed_mode-Bounded limit eof (some octet) b =
    feed_loop-Bounded limit octet (octet_loop (length b) limit eof b)
      (octet_loop-Sized (length b) limit eof b (omega arith))
feed_mode-Bounded limit eof (some newline) b =
    feed_loop-Bounded limit newline (line_loop limit eof b)
      (line_frames-Sized limit eof (split_lines b))
feed_mode-Bounded limit eof none b = feed_undecided-Bounded limit b

-- A feed ends, whatever the framer holds and the bytes are; where it raises no error its frames are
-- within the limit and it keeps at most one frame and its count.
pub feed-Bounded :
    (limit : ℕ) (chunk : Text) (eof : Bool) (f : Framer) → Bounded limit (feed limit chunk eof f)
unfolding feed
feed-Bounded limit chunk eof f =
    feed_mode-Bounded limit eof (select_mode eof f.mode (f.buffer ++ chunk)) (f.buffer ++ chunk)

-- what a connection delivers
abbrev pub Ends : ℕ → List Text × End → Type 0
Ends limit (fs, e) = Within limit fs × (e ≢ unending)

ends : (limit : ℕ) (r : Fed) → Bounded limit r → Ends limit (last_frames r)
ends limit (fed f fs) h = (h.1, λ q. cc)
ends limit (raised e) h = (tt, λ q. cc)
ends limit no_end h = absurd h

handle_fed-Ends :
    (limit : ℕ) (again : Framer → List Text × End) (r : Fed)
    → ((f : Framer) → Ends limit (again f))
    → Bounded limit r
    → Ends limit (handle_fed again r)
handle_fed-Ends limit again (fed f fs) h k =
    (All-append (λ (x : Text). length x ≤ limit) fs (again f).0 k.1 (h f).0, (h f).1)
handle_fed-Ends limit again (raised e) h k = (tt, λ q. cc)
handle_fed-Ends limit again no_end h k = absurd k

-- Whatever bytes a connection sends and in whatever chunks, its loops end: it ends at the end of the
-- stream or with a framing error, and no message delivered is larger than the limit.
pub handle_tcp_client-Ends :
    (limit : ℕ) (chunks : List Text) (f : Framer) → Ends limit (handle_tcp_client limit chunks f)
unfolding handle_tcp_client
handle_tcp_client-Ends limit [] f = ends limit (feed limit [] true f) (feed-Bounded limit [] true f)
handle_tcp_client-Ends limit (chunk ∷ chunks) f =
    handle_fed-Ends limit (handle_tcp_client limit chunks) (feed limit chunk false f)
      (handle_tcp_client-Ends limit chunks) (feed-Bounded limit chunk false f)
