-- ===== src/Listener/Framer.antt =====
-- listener.py, `_SyslogTCPFramer`: the frames of a TCP connection, by octet counts (RFC 6587) or by
-- lines. Bytes are numbers. The loop over counted frames has the length of the buffer for fuel.
pub mod Prefixes
pub mod Counted
pub mod Lines
pub mod Chunks
pub mod Bounds
use mini_siem.Base.{
  ℕ, zero, suc, ◌+◌, ◌-◌, ◌*◌, min, Bool, true, false, not, ◌&&◌, ◌||◌, Option, none, some, List,
  [], ◌∷◌, ◌++◌, ltb, leb, if◌then◌else◌, string_eq, nat_eq, ◌==◌, is_some, length, take, drop,
  any_of, all_of, keep, Text, text_eq, elem,
}

pub data Mode : Type 0 where
  octet newline : Mode

pub record Framer : Type 0 where
  pub buffer : Text
  pub mode : Option Mode

-- the kinds of `_TCPFramingError`
pub data FramingError : Type 0 where
  bad_prefix too_large truncated long_line unterminated undecided : FramingError

abbrev pub is_digit : ℕ → Bool
is_digit c = leb b'0' c && leb c b'9'

-- the rest of `[1-9][0-9]{0,9} ` behind the first digit: the number and what follows the blank
unfoldable pub prefix_rest : ℕ → ℕ → Text → Option (ℕ × Text)
prefix_rest n size [] = none
prefix_rest n size (c ∷ s) = elim (c == b' ') [
  | true ↦ some (size, s)
  | false ↦ elim (is_digit c && ltb 0 n) [
    | true ↦ prefix_rest (n - 1) (size * 10 + (c - b'0')) s
    | false ↦ none
  ]
]

-- `re.match(rb"^([1-9][0-9]{0,9}) ", buffer)`
unfoldable pub octet_prefix : Text → Option (ℕ × Text)
unfolding prefix_rest
octet_prefix [] = none
octet_prefix (c ∷ s) = if is_digit c && not (c == b'0') then prefix_rest 9 (c - b'0') s else none

-- `buffer.split(b" ", 1)[0]`
abbrev pub before_blank : Text → Text
before_blank [] = []
before_blank (c ∷ s) = let rest = before_blank s in if c == b' ' then [] else c ∷ rest

abbrev pub starts_digit : Text → Bool
starts_digit [] = false
starts_digit (c ∷ s) = is_digit c

-- a decimal prefix that may still become an octet count
unfoldable pub is_partial : Text → Bool
is_partial b =
    starts_digit b
    && not (elem b'\n' b)
    && all_of is_digit (before_blank b)
    && leb (length (before_blank b)) 10

abbrev pub mode_of : Bool → Text → Option Mode
mode_of eof b =
    if is_some (octet_prefix b)
    then some octet
    else if is_partial b && not eof
    then none
    else some newline

-- `_select_mode`
unfoldable pub select_mode : Bool → Option Mode → Text → Option Mode
unfolding octet_prefix is_partial
select_mode eof (some m) b = some m
select_mode eof none [] = none
select_mode eof none (c ∷ s) = mode_of eof (c ∷ s)

-- `not frame.strip()`, of bytes
abbrev pub is_blank : Text → Bool
is_blank = all_of (λ c. (leb 9 c && leb c 13) || c == b' ')

-- how a loop ends: the buffer that is left and the frames, or an error
pub data Loop : Type 0 where
  left : Text → List Text → Loop
  broken : FramingError → Loop
  out_of_fuel : Loop

abbrev pub put_frame : Text → Loop → Loop
put_frame frame (left b fs) = left b (if is_blank frame then fs else frame ∷ fs)
put_frame frame (broken e) = broken e
put_frame frame out_of_fuel = out_of_fuel

-- one turn of the loop over counted frames at a buffer with the given prefix; `again` is the loop
abbrev pub octet_turn : ℕ → Bool → Text → (Text → Loop) → Option (ℕ × Text) → Loop
octet_turn limit eof b again none =
    if eof || ltb 11 (length b) then broken bad_prefix else left b []
octet_turn limit eof b again (some (size, rest)) = elim (ltb limit size) [
  | true ↦ broken too_large
  | false ↦ elim (ltb (length rest) size) [
    | true ↦ if eof then broken truncated else left b []
    | false ↦ put_frame (take size rest) (again (drop size rest))
  ]
]

-- the loop over counted frames, `limit` being `max_frame_bytes`
unfoldable pub octet_loop : ℕ → ℕ → Bool → Text → Loop
octet_loop fuel limit eof [] = left [] []
octet_loop zero limit eof (c ∷ s) = out_of_fuel
octet_loop (suc fuel) limit eof (c ∷ s) =
    octet_turn limit eof (c ∷ s) (octet_loop fuel limit eof) (octet_prefix (c ∷ s))

-- the lines that a newline ends, and what follows the last of them
abbrev pub push_byte : ℕ → List Text × Text → List Text × Text
push_byte c ([], rest) = ([], c ∷ rest)
push_byte c (l ∷ ls, rest) = ((c ∷ l) ∷ ls, rest)

abbrev pub end_line : List Text × Text → List Text × Text
end_line (ls, rest) = ([] ∷ ls, rest)

unfoldable pub split_lines : Text → List Text × Text
split_lines [] = ([], [])
split_lines (c ∷ s) = let p = split_lines s in if c == b'\n' then end_line p else push_byte c p

abbrev pub frames_of : List Text → List Text
frames_of = keep (λ l. not (is_blank l))

abbrev pub line_frames : ℕ → Bool → List Text × Text → Loop
line_frames limit eof (ls, rest) =
    if any_of (λ l. ltb limit (length l)) ls
    then broken long_line
    else if ltb limit (length rest)
    then broken unterminated
    else if eof && not (is_blank rest)
    then left [] (frames_of ls ++ rest ∷ [])
    else left rest (frames_of ls)

-- the loop over lines
unfoldable pub line_loop : ℕ → Bool → Text → Loop
unfolding split_lines
line_loop limit eof b = line_frames limit eof (split_lines b)

-- what `feed` gives: the framer and the frames, or the error that is raised
pub data Fed : Type 0 where
  fed : Framer → List Text → Fed
  raised : FramingError → Fed
  no_end : Fed

abbrev pub feed_loop : Mode → Loop → Fed
feed_loop m (left b fs) = fed (record { buffer = b; mode = some m }) fs
feed_loop m (broken e) = raised e
feed_loop m out_of_fuel = no_end

abbrev pub feed_undecided : ℕ → Text → Fed
feed_undecided limit b =
    if ltb (limit + 11) (length b)
    then raised undecided
    else fed (record { buffer = b; mode = none }) []

-- Behind the choice of the mode. At the end of the stream only an empty buffer leaves it open, so
-- that `feed` never calls itself.
abbrev pub feed_mode : ℕ → Bool → Option Mode → Text → Fed
feed_mode limit eof (some octet) b = feed_loop octet (octet_loop (length b) limit eof b)
feed_mode limit eof (some newline) b = feed_loop newline (line_loop limit eof b)
feed_mode limit eof none b = feed_undecided limit b

-- `feed`
unfoldable pub feed : ℕ → Text → Bool → Framer → Fed
unfolding select_mode octet_loop line_loop
feed limit chunk eof f =
    let b = f.buffer ++ chunk in feed_mode limit eof (select_mode eof f.mode b) b

-- how a connection ends
pub data End : Type 0 where
  at_eof unending : End
  on_error : FramingError → End

abbrev pub deliver : List Text → List Text × End → List Text × End
deliver fs (gs, e) = (fs ++ gs, e)

abbrev pub last_frames : Fed → List Text × End
last_frames (fed f fs) = (fs, at_eof)
last_frames (raised e) = ([], on_error e)
last_frames no_end = ([], unending)

abbrev pub handle_fed : (Framer → List Text × End) → Fed → List Text × End
handle_fed again (fed f fs) = deliver fs (again f)
handle_fed again (raised e) = ([], on_error e)
handle_fed again no_end = ([], unending)

-- `_handle_tcp_client`: the messages of a connection whose chunks are received and that then ends,
-- and how it ended
unfoldable pub handle_tcp_client : ℕ → List Text → Framer → List Text × End
unfolding feed
handle_tcp_client limit [] f = last_frames (feed limit [] true f)
handle_tcp_client limit (chunk ∷ chunks) f =
    handle_fed (handle_tcp_client limit chunks) (feed limit chunk false f)

-- `_SyslogTCPFramer.__init__`
abbrev pub new_framer : Framer
new_framer = record { buffer = []; mode = none }
