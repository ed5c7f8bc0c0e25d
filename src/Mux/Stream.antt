-- ===== src/Mux/Stream.antt =====
-- pkg/mux/stream.go: one logical data stream. Each function is one critical section of `st.mu`;
-- a wait on `st.cond` is the result `blocked`, after which the caller tries again.
use sandboxer.Prelude.{
  ℕ, ◌+◌, ◌-◌, ◌/◌, ◌%◌, ◌^◌, Option, none, some, List, [], ◌++◌, ltb, leb, ◌==◌, if◌then◌else◌,
  ◌||◌, Bool, true, false, length, take, drop, min,
}
use sandboxer.Prelude.Int.{int_pos}
use sandboxer.Mux.Wire.{IoError}
use sandboxer.Mux.Frame.{Frame, frame_window_update, frame_eof, frame_reset, encode_uint32}

-- The sentinel errors of session.go, io.EOF, and the errors of a frame's read or write.
pub data MuxError : Type 0 where
  stream_reset closed protocol end_of_file : MuxError
  in_header in_payload in_write : IoError → MuxError

-- `credit` is a Go int, kept as its 64-bit pattern; the other counts are lengths.
pub record Stream : Type 0 where
  pub id : ℕ
  pub window : ℕ
  pub buf : List ℕ
  pub r_eof : Bool
  pub r_reset : Bool
  pub consumed : ℕ
  pub credit : ℕ
  pub w_closed : Bool
  pub w_reset : Bool
  pub dead : Bool

unfoldable pub new_stream : ℕ → ℕ → Stream
new_stream id window = record {
  id = id;
  window = window;
  buf = [];
  r_eof = false;
  r_reset = false;
  consumed = 0;
  credit = window;
  w_closed = false;
  w_reset = false;
  dead = false;
}

-- deliver: none is a nil error.
unfoldable pub deliver : List ℕ → Stream → Option MuxError × Stream
deliver p st =
    if st.r_eof || st.r_reset
    then (some protocol, st)
    else if ltb st.window (length st.buf + length p)
    then (some protocol, st)
    else (none, record st { buf = st.buf ++ p })

unfoldable pub deliver_eof : Stream → Stream
deliver_eof st = record st { r_eof = true }

unfoldable pub deliver_reset : Stream → Stream
deliver_reset st = record st { r_reset = true; w_reset = true }

unfoldable pub add_credit : ℕ → Stream → Stream
add_credit delta st = record st { credit = (st.credit + delta) % 2 ^ 64 }

unfoldable pub shutdown : Stream → Stream
shutdown st = record st { dead = true }

-- Read up to the point where it leaves the lock: the bytes, and the WINDOW_UPDATE to be sent.
pub data ReadStep : Type 0 where
  read_blocked : ReadStep
  read_failed : MuxError → ReadStep
  read_bytes : List ℕ → Option Frame → Stream → ReadStep

unfoldable pub window_update : ℕ → ℕ → Frame
window_update id n = record {
  stream = id;
  type = frame_window_update;
  payload = encode_uint32 (n % 2 ^ 32);
}

-- `n` bytes leave the buffer; at half a window consumed, the peer is told.
unfoldable pub consume : ℕ → Stream → ReadStep
consume n st =
    let total = st.consumed + n in
    let bytes = take n st.buf in
    let rest = drop n st.buf in
    if leb (st.window / 2) total
    then read_bytes bytes (if ltb 0 total then some (window_update st.id total) else none)
        (record st { buf = rest; consumed = 0 })
    else read_bytes bytes none (record st { buf = rest; consumed = total })

-- `room` is len(p) of the caller's buffer.
unfoldable pub read : ℕ → Stream → ReadStep
unfolding consume
read room st =
    if length st.buf == 0
    then (if st.r_reset
        then read_failed stream_reset
        else if st.r_eof
        then read_failed end_of_file
        else if st.dead
        then read_failed closed
        else read_blocked)
    else consume (min room (length st.buf)) st

-- acquireUpTo; `refuse` is what the session's refuseWrites reports.
pub data Acquire : Type 0 where
  acquire_blocked : Acquire
  acquire_failed : MuxError → Acquire
  acquired : ℕ → Stream → Acquire

unfoldable pub acquire_up_to : ℕ → Bool → Stream → Acquire
acquire_up_to want refuse st =
    if int_pos st.credit
    then (let n = min st.credit want in acquired n (record st { credit = st.credit - n }))
    else if st.w_reset
    then acquire_failed stream_reset
    else if st.w_closed
    then acquire_failed closed
    else if st.dead
    then acquire_failed closed
    else if refuse
    then acquire_failed closed
    else acquire_blocked

-- The test at the head of Write.
unfoldable pub write_refused : Stream → Bool
write_refused st = st.w_closed || st.w_reset || st.dead

-- CloseWrite and Reset: the frame to send, if any.
unfoldable pub close_write : Stream → Option Frame × Stream
close_write st = if st.w_closed || st.w_reset then (none, st) else (
  some (record { stream = st.id; type = frame_eof; payload = [] }),
  record st { w_closed = true },
)

unfoldable pub reset : Stream → Option Frame × Stream
reset st = if st.w_reset then (none, st) else (
  some (record { stream = st.id; type = frame_reset; payload = [] }),
  record st { w_reset = true; r_reset = true },
)
