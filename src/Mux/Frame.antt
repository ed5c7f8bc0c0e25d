-- ===== src/Mux/Frame.antt =====
-- pkg/mux/frame.go: the wire format of one frame, and the encodings of its small payloads.
pub mod RoundTrip
pub mod Progress
pub mod Write
use sandboxer.Prelude.{
  ℕ, ◌+◌, ◌%◌, ◌^◌, ◌<◌, ◌≤◌, Option, none, some, List, [], ◌∷◌, ◌++◌, ltb, ◌==◌, if◌then◌else◌,
  ◌||◌, Bool, length, get_or,
}
use sandboxer.Prelude.Bytes.{IsByte, be16, of_be16, be32, of_be32}
use sandboxer.Mux.Wire.{
  IoError, frame_too_large, Conn, WriteEnd, done, stuck, failed, write_all, Source, got, lost,
  read_full, ReadResult,
}

abbrev pub frame_header_len : ℕ
frame_header_len = 4

abbrev pub max_frame_payload : ℕ
max_frame_payload = 0xFFFF

abbrev pub data_chunk : ℕ
data_chunk = 32768

abbrev pub default_window : ℕ
default_window = 65536

abbrev pub stream_control : ℕ
stream_control = 0

abbrev pub stream_stdin : ℕ
stream_stdin = 1

abbrev pub stream_stdout : ℕ
stream_stdout = 2

abbrev pub stream_stderr : ℕ
stream_stderr = 3

abbrev pub stream_pty : ℕ
stream_pty = 4

abbrev pub frame_data : ℕ
frame_data = 0

abbrev pub frame_eof : ℕ
frame_eof = 1

abbrev pub frame_reset : ℕ
frame_reset = 2

abbrev pub frame_window_update : ℕ
frame_window_update = 3

abbrev pub frame_set_winsize : ℕ
frame_set_winsize = 4

abbrev pub frame_mux_close : ℕ
frame_mux_close = 5

abbrev pub frame_mux_close_ack : ℕ
frame_mux_close_ack = 6

abbrev pub frame_exit_status : ℕ
frame_exit_status = 7

pub record Frame : Type 0 where
  pub stream : ℕ
  pub type : ℕ
  pub payload : List ℕ

-- The values that the Go struct can hold: two bytes and a slice of bytes.
pub record IsFrame (f : Frame) : Type 0 where
  pub stream_byte : IsByte f.stream
  pub type_byte : IsByte f.type

-- The four bytes of `hdr`; the length field is `uint16(len(f.Payload))`.
unfoldable pub header : Frame → List ℕ
header f = f.stream ∷ f.type ∷ be16 (length f.payload % 2 ^ 16)

module _ {W : Type 0} (dev : Conn W) where
  write_payload : WriteEnd × W → List ℕ → WriteEnd × W
  write_payload (done, w) p = if ltb 0 (length p) then write_all dev w p else (done, w)
  write_payload (stuck, w) p = (stuck, w)
  write_payload (failed e, w) p = (failed e, w)

  unfoldable pub write_frame : W → Frame → WriteEnd × W
  unfolding write_payload
  write_frame w f =
      if ltb max_frame_payload (length f.payload)
      then (failed frame_too_large, w)
      else write_payload (write_all dev w (header f)) f.payload

-- ReadFrame: an error of the header comes as it is (so that io.EOF shows), one of the payload
-- comes wrapped.
pub data FrameResult : Type 0 where
  frame : Frame → Source → FrameResult
  bad_header : IoError → FrameResult
  bad_payload : IoError → FrameResult

read_payload : Frame → ReadResult (List ℕ) → FrameResult
read_payload f (got p s) = frame (record f { payload = p }) s
read_payload f (lost e) = bad_payload e

-- `hdr` is what ReadFull delivered, four bytes.
after_header : ReadResult (List ℕ) → FrameResult
unfolding read_payload
after_header (lost e) = bad_header e
after_header (got hdr s) =
    let n = of_be16 (get_or hdr 2 0) (get_or hdr 3 0) in
    let f : Frame = record { stream = get_or hdr 0 0; type = get_or hdr 1 0; payload = [] } in
    if ltb 0 n then read_payload f (read_full n s) else frame f s

unfoldable pub read_frame : Source → FrameResult
unfolding after_header
read_frame s = after_header (read_full frame_header_len s)

unfoldable pub encode_winsize : ℕ → ℕ → List ℕ
encode_winsize cols rows = be16 cols ++ be16 rows

unfoldable pub decode_winsize : List ℕ → Option (ℕ × ℕ)
decode_winsize p =
    if length p == 4
    then some (of_be16 (get_or p 0 0) (get_or p 1 0), of_be16 (get_or p 2 0) (get_or p 3 0))
    else none

unfoldable pub encode_uint32 : ℕ → List ℕ
encode_uint32 v = be32 v

unfoldable pub decode_uint32 : List ℕ → Option ℕ
decode_uint32 p =
    if length p == 4
    then some (of_be32 (get_or p 0 0) (get_or p 1 0) (get_or p 2 0) (get_or p 3 0))
    else none

unfoldable pub is_data_stream : ℕ → Bool
is_data_stream s = s == stream_stdin || s == stream_stdout || s == stream_stderr || s == stream_pty
