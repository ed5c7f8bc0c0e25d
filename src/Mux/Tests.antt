-- ===== src/Mux/Tests.antt =====
-- The theorems about pkg/mux at concrete inputs, and runs of its functions.
use sandboxer.Prelude.{
  ℕ, ◌+◌, ◌<◌, ◌≤◌, ◌≡◌, refl, none, some, List, [], ◌∷◌, ◌++◌, false, length, take, arith, ◌⊎◌,
  min, if◌then◌else◌, ◌||◌, ◌/◌,
}
use sandboxer.Prelude.Int.{pos}
use sandboxer.Mux.Wire.{Conn, at_eof, done, write_all, eof, unexpected_eof, failed, frame_too_large}
use sandboxer.Mux.Wire.Laws.{IsWriter, Sent, write_all-Sent}
use sandboxer.Mux.Frame.{Frame, frame, bad_header, bad_payload, write_frame, read_frame, header}
use sandboxer.Mux.Frame.RoundTrip.{wire, Fits, read_frame-wire, read_frame_truncated}
use sandboxer.Mux.Frame.Write.{write_frame_prefix}
use sandboxer.Mux.Stream.{Stream, protocol, new_stream, acquire_up_to, acquired, deliver}
use sandboxer.Mux.Flow.{Link, fresh_link, Reach, here, next, takes_credit, sends_data}
use sandboxer.Mux.Flow.Balance.{deliver_in_window, credit-le-window, quiet_link_has_credit}

-- A connection that takes three bytes at a time and keeps all that it took.
abbrev pub slow_conn : Conn (List ℕ)
slow_conn = record {
  write = λ w p. record {
    count = pos (min 3 (length p));
    failure = none;
    conn = w ++ take (min 3 (length p)) p;
  };
  close = λ w. w;
}

pub slow_conn-IsWriter : IsWriter slow_conn (λ w. w)
slow_conn-IsWriter = record {
  writes = λ w p. (min 3 (length p), omega arith, refl, refl);
  closes = λ w. refl;
}

abbrev hello : Frame
hello = record { stream = 2; type = 0; payload = 104 ∷ 105 ∷ [] }

hello-Fits : Fits hello
hello-Fits = omega arith

write_all-slow :
    write_all slow_conn (9 ∷ []) (1 ∷ 2 ∷ 3 ∷ 4 ∷ 5 ∷ []) ≡ (done, 9 ∷ 1 ∷ 2 ∷ 3 ∷ 4 ∷ 5 ∷ [])
unfolding write_all
write_all-slow = refl

write_frame-slow : write_frame slow_conn [] hello ≡ (done, 2 ∷ 0 ∷ 0 ∷ 2 ∷ 104 ∷ 105 ∷ [])
unfolding write_frame write_all header
write_frame-slow = refl

write_all-Sent_example : Sent (λ w. w) [] (7 ∷ 8 ∷ []) (write_all slow_conn [] (7 ∷ 8 ∷ []))
write_all-Sent_example = write_all-Sent slow_conn (λ w. w) slow_conn-IsWriter [] (7 ∷ 8 ∷ [])

read_frame-wire_example :
    read_frame (record { bytes = wire hello ++ (9 ∷ []); ending = at_eof })
    ≡ frame hello (record { bytes = 9 ∷ []; ending = at_eof })
read_frame-wire_example = read_frame-wire hello (9 ∷ []) _ hello-Fits refl

read_frame_truncated_example :
    let r = read_frame (record { bytes = take 5 (wire hello); ending = at_eof }) in
    ((◌≡◌ {A = ℕ} 5 0) × (r ≡ bad_header eof))
    ⊎ ((0 < 5) × (5 < 4) × (r ≡ bad_header unexpected_eof))
    ⊎ ((◌≡◌ {A = ℕ} 5 4) × (r ≡ bad_payload eof))
    ⊎ ((4 < 5) × (r ≡ bad_payload unexpected_eof))
unfolding wire header
read_frame_truncated_example = read_frame_truncated hello 5 hello-Fits (omega arith)

write_frame_prefix_example :
    ((0xFFFF < 2) × (write_frame slow_conn [] hello ≡ (failed frame_too_large, [])))
    ⊎ ((2 ≤ 0xFFFF) × Sent (λ w. w) [] (wire hello) (write_frame slow_conn [] hello))
write_frame_prefix_example = write_frame_prefix slow_conn (λ w. w) slow_conn-IsWriter [] hello

-- Three of eight bytes of credit are taken, and their DATA frame is in flight.
abbrev chunk : List ℕ
chunk = 1 ∷ 2 ∷ 3 ∷ []

abbrev spent : Stream
spent = record (new_stream 1 8) { credit = 5 }

abbrev in_flight : Link
in_flight = record (fresh_link 1 8) { sender = spent; wire = chunk ∷ [] }

in_flight-Reach : Reach (fresh_link 1 8) in_flight
unfolding new_stream acquire_up_to
in_flight-Reach =
    next (next here (takes_credit 3 false 3 spent chunk refl refl)) (sends_data [] [] chunk refl)

deliver_in_window_example :
    (length in_flight.receiver.buf + length chunk ≤ 8)
    × ((deliver chunk in_flight.receiver).0
        ≡ (if in_flight.receiver.r_eof || in_flight.receiver.r_reset then some protocol else none))
deliver_in_window_example = deliver_in_window 8 (omega arith) 1 in_flight-Reach chunk [] refl

credit-le-window_example : 5 ≤ 8
credit-le-window_example = credit-le-window 8 (omega arith) 1 in_flight-Reach

quiet_link_has_credit_example :
    let credit = (fresh_link 1 8).sender.credit in
    (st : Stream) × (8 / 2 < credit)
    × (0 < min credit 6)
    × (st.credit + min credit 6 ≡ credit)
    × (acquire_up_to 6 false (fresh_link 1 8).sender ≡ acquired (min credit 6) st)
unfolding new_stream
quiet_link_has_credit_example =
    quiet_link_has_credit 8 (omega arith) 1 here 6 false (omega arith) (omega arith) refl refl refl
      refl refl
