-- ===== src/Listener/Tests.antt =====
-- The framer at concrete bytes: frames with counts and as lines, cut into chunks, and errors.
use mini_siem.Base.{◌≡◌, refl, some, List, [], ◌∷◌, arith, string_eq, nat_eq, Text, codes, text_eq}
use mini_siem.Forwarder.Framing.{send_all}
use mini_siem.Listener.Framer.{
  feed, handle_tcp_client, new_framer, octet, bad_prefix, too_large, truncated, at_eof, on_error,
}
use mini_siem.Listener.Framer.Chunks.{handle_tcp_client-join}
use mini_siem.Listener.Framer.Bounds.{Ends, handle_tcp_client-Ends}
use mini_siem.Listener.FromForwarder.{send_all-delivered, send_lines-delivered}

-- "<1>" and "<2> x"
abbrev first_message : Text
first_message = codes "<1>"

abbrev second_message : Text
second_message = codes "<2> x"

abbrev both : List Text
both = first_message ∷ second_message ∷ []

-- "3 <1>5 <2> x" in three chunks
abbrev counted_chunks : List Text
counted_chunks = codes "3 <" ∷ codes "1>5" ∷ codes " <2> x" ∷ []

abbrev line_chunks : List Text
line_chunks = codes "<1" ∷ (b'>' ∷ b'\n' ∷ codes "<2> x") ∷ (b'\n' ∷ []) ∷ []

counted_stream : handle_tcp_client 100 counted_chunks new_framer ≡ (both, at_eof)
unfolding handle_tcp_client
counted_stream = refl

-- A count above the limit, a count that does not follow, and a frame that is cut short.
too_large_test : handle_tcp_client 4 (codes "9 <1>" ∷ []) new_framer ≡ ([], on_error too_large)
unfolding handle_tcp_client
too_large_test = refl

bad_prefix_test :
    handle_tcp_client 100 (codes "3 <1>5x" ∷ []) new_framer
    ≡ (first_message ∷ [], on_error bad_prefix)
unfolding handle_tcp_client
bad_prefix_test = refl

truncated_test : handle_tcp_client 100 (codes "9 <1>" ∷ []) new_framer ≡ ([], on_error truncated)
unfolding handle_tcp_client
truncated_test = refl

-- A last line without an end is delivered when the stream ends.
unended_test : handle_tcp_client 100 (codes "<1>" ∷ []) new_framer ≡ (first_message ∷ [], at_eof)
unfolding handle_tcp_client
unended_test = refl

handle_tcp_client-join_example :
    handle_tcp_client 100 counted_chunks new_framer
    ≡ handle_tcp_client 100 (codes "3 <1>5 <2> x" ∷ []) new_framer
unfolding feed
handle_tcp_client-join_example =
    handle_tcp_client-join 100 (codes "3 <") (codes "1>5" ∷ codes " <2> x" ∷ []) new_framer
      (record { buffer = []; mode = some octet }) both refl

send_all-delivered_example : handle_tcp_client 100 counted_chunks new_framer ≡ (both, at_eof)
unfolding send_all
send_all-delivered_example =
    send_all-delivered 100 both (codes "3 <") (codes "1>5" ∷ codes " <2> x" ∷ []) (omega arith)
      ((refl, omega arith), ((refl, omega arith), tt)) refl

line_stream : handle_tcp_client 100 line_chunks new_framer ≡ (both, at_eof)
unfolding send_all
line_stream =
    send_lines-delivered 100 b'<' (codes "1>") (second_message ∷ []) (codes "<1")
      ((b'>' ∷ b'\n' ∷ codes "<2> x") ∷ (b'\n' ∷ []) ∷ []) refl
      ((refl, omega arith), ((refl, omega arith), tt)) (refl, (refl, tt)) refl

handle_tcp_client-Ends_example : Ends 4 (handle_tcp_client 4 (codes "9 <1>" ∷ []) new_framer)
handle_tcp_client-Ends_example = handle_tcp_client-Ends 4 (codes "9 <1>" ∷ []) new_framer
