-- ===== src/Mux/SessionTests.antt =====
-- The theorems about the sessions of pkg/mux at concrete inputs.
use sandboxer.Prelude.{
  ℕ, ◌-◌, ◌%◌, ◌^◌, ◌≡◌, refl, none, some, List, [], ◌∷◌, true, false, arith, ◌⊎◌, ◌≢◌,
}
use sandboxer.Mux.Tests.{slow_conn, slow_conn-IsWriter}
use sandboxer.Mux.Wire.{Source, at_eof, write_all}
use sandboxer.Mux.Frame.{Frame, frame, write_frame, header, encode_uint32, frame_exit_status}
use sandboxer.Mux.Stream.{Stream, protocol, new_stream}
use sandboxer.Mux.Session.{
  Session, new_session, send, exit_status, control, init_mux_close, find_stream, close,
  finish_write,
}
use sandboxer.Mux.Session.Trace.{
  Moment, idle, ends, Reach, send-Reach, here, next, barrier_ok, ReadsAs, PartOfFrame,
  peer_reads_frames,
}
use sandboxer.Mux.Session.Trace.Retired.{Silent, retired_is_Silent}
use sandboxer.Mux.Session.Dispatch.{Accepts, dispatch_accepts}
use sandboxer.Mux.Session.Loop.{dispatch, read_turn, read_loop}
use sandboxer.Mux.Session.Data.{reset_stream}
use sandboxer.Mux.Session.Data.Reset.{reset_then_data}
use sandboxer.Mux.Session.Loop.Ends.{Ended, read_loop-Ended}
use sandboxer.Mux.Session.Loop.Handshake.{exit_status_first, dispatch_all}

-- A session with stdout and stderr, and its windows at 16 bytes.
abbrev session : Session (List ℕ)
session = new_session [] (2 ∷ 3 ∷ []) 16 false

abbrev letter : Frame
letter = record { stream = 2; type = 0; payload = 65 ∷ [] }

letter_sent : Reach slow_conn session (send slow_conn letter session).1
letter_sent = send-Reach slow_conn session letter (omega arith) here

abbrev sent_letter : Source
sent_letter = record { bytes = 2 ∷ 0 ∷ 0 ∷ 1 ∷ 65 ∷ []; ending = at_eof }

peer_reads_frames_example :
    (frames : List Frame) × (tail : List ℕ) × ReadsAs sent_letter frames
      (record sent_letter { bytes = tail })
    × (barrier_ok false frames ≡ true)
    × ((tail ≡ [])
        ⊎ (((send slow_conn letter session).1.retired ≡ true)
            × ((idle (send slow_conn letter session).1).writing ≡ none)
            × PartOfFrame tail))
unfolding send write_frame write_all header new_session
peer_reads_frames_example =
    peer_reads_frames slow_conn (λ w. w) slow_conn-IsWriter sent_letter letter_sent refl

-- The session is closed while a frame is being written; the write goes through all the same.
abbrev interrupted : Moment (List ℕ)
interrupted = record { session = close slow_conn session; writing = some letter }

abbrev drained : Moment (List ℕ)
drained = record {
  session =
      (finish_write slow_conn interrupted.session
        (write_frame slow_conn interrupted.session.conn letter)).1;
  writing = none;
}

retired_is_Silent_example :
    (drained.session.retired ≡ true)
    × Silent slow_conn (λ w. w) slow_conn-IsWriter interrupted drained
unfolding close
retired_is_Silent_example =
    retired_is_Silent slow_conn (λ w. w) slow_conn-IsWriter (next here (ends letter refl)) refl

dispatch_accepts_example :
    (((dispatch slow_conn letter session).0 ≡ none) × Accepts session letter)
    ⊎ ((dispatch slow_conn letter session ≡ (some protocol, session)) × ¬ Accepts session letter)
dispatch_accepts_example = dispatch_accepts slow_conn letter session (omega arith)

read_loop-Ended_example : Ended (read_loop slow_conn sent_letter session)
read_loop-Ended_example = read_loop-Ended slow_conn sent_letter session

-- -1, and a second exit status that is too late.
exit_status_first_example :
    exit_status (
      dispatch_all slow_conn
        (control frame_exit_status (encode_uint32 ((2 ^ 64 - 1) % 2 ^ 32)) ∷ letter ∷ [])
        session)
    ≡ (2 ^ 64 - 1, true)
unfolding new_session
exit_status_first_example =
    exit_status_first slow_conn (2 ^ 64 - 1) (letter ∷ []) session (omega arith) refl

abbrev closing : Session (List ℕ)
closing = (init_mux_close slow_conn session).1

abbrev close_bytes : Source
close_bytes = record { bytes = 0 ∷ 5 ∷ 0 ∷ 0 ∷ []; ending = at_eof }

abbrev ack_bytes : Source
ack_bytes = record { bytes = 0 ∷ 6 ∷ 0 ∷ 0 ∷ []; ending = at_eof }

abbrev stdout : Stream
stdout = new_stream 2 16

reset_then_data_example :
    ((read_turn slow_conn (frame letter sent_letter) (reset_stream slow_conn stdout session).1).1
      ≡ true)
    × ((read_turn slow_conn
          (frame letter sent_letter)
          (reset_stream slow_conn stdout session).1).0.retired
        ≡ true)
    × ((read_turn slow_conn
          (frame letter sent_letter)
          (reset_stream slow_conn stdout session).1).0.err
        ≢ none)
unfolding new_stream new_session find_stream
reset_then_data_example =
    reset_then_data slow_conn stdout session letter sent_letter refl refl refl refl
