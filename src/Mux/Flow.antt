-- ===== src/Mux/Flow.antt =====
-- The two ends of one data stream of pkg/mux, in one direction, with everything that is on its
-- way between them. The steps are the critical sections of stream.go in any order: several
-- goroutines may write, read and send updates at once.
pub mod Balance
use sandboxer.Prelude.{
  ℕ, ◌+◌, ◌≡◌, Option, none, some, List, [], ◌∷◌, ◌++◌, Bool, length, if◌then◌else◌,
}
use sandboxer.Mux.Frame.{Frame, decode_uint32}
use sandboxer.Mux.Stream.{
  Stream, new_stream, deliver, deliver_eof, deliver_reset, add_credit, shutdown, read, read_bytes,
  acquire_up_to, acquired, close_write, reset,
}

-- `held`: chunks for which credit was taken and whose DATA frame is not written yet.
-- `wire`: payloads of DATA frames in flight, oldest first.
-- `owed`: WINDOW_UPDATE frames that a Read has still to write; `grants`: those in flight.
pub record Link : Type 0 where
  pub sender : Stream
  pub receiver : Stream
  pub held : List (List ℕ)
  pub wire : List (List ℕ)
  pub owed : List Frame
  pub grants : List Frame

abbrev pub fresh_link : ℕ → ℕ → Link
fresh_link id window = record {
  sender = new_stream id window;
  receiver = new_stream id window;
  held = [];
  wire = [];
  owed = [];
  grants = [];
}

abbrev pub owe : Option Frame → List Frame → List Frame
owe none fs = fs
owe (some f) fs = f ∷ fs

pub data Step (l : Link) : Link → Type 0 where
  takes_credit :
      (want : ℕ) (refuse : Bool) (n : ℕ) (st : Stream) (chunk : List ℕ)
      → acquire_up_to want refuse l.sender ≡ acquired n st
      → length chunk ≡ n
      → Step l (record l { sender = st; held = chunk ∷ l.held })
  sends_data :
      (before after : List (List ℕ)) (chunk : List ℕ)
      → l.held ≡ before ++ (chunk ∷ after)
      → Step l (record l { held = before ++ after; wire = l.wire ++ (chunk ∷ []) })
  takes_data :
      (chunk : List ℕ) (rest : List (List ℕ)) (st : Stream)
      → l.wire ≡ chunk ∷ rest
      → deliver chunk l.receiver ≡ (none, st)
      → Step l (record l { receiver = st; wire = rest })
  reads :
      (room : ℕ) (bytes : List ℕ) (update : Option Frame) (st : Stream)
      → read room l.receiver ≡ read_bytes bytes update st
      → Step l (record l { receiver = st; owed = owe update l.owed })
  sends_update :
      (before after : List Frame) (f : Frame)
      → l.owed ≡ before ++ (f ∷ after)
      → Step l (record l { owed = before ++ after; grants = l.grants ++ (f ∷ []) })
  takes_update :
      (f : Frame) (rest : List Frame) (delta : ℕ)
      → l.grants ≡ f ∷ rest
      → decode_uint32 f.payload ≡ some delta
      → Step l (record l { sender = add_credit delta l.sender; grants = rest })
  sender_closes : Step l (record l { sender = (close_write l.sender).1 })
  sender_resets : Step l (record l { sender = (reset l.sender).1 })
  sender_is_reset : Step l (record l { sender = deliver_reset l.sender })
  sender_dies : Step l (record l { sender = shutdown l.sender })
  receiver_ends : Step l (record l { receiver = deliver_eof l.receiver })
  receiver_resets : Step l (record l { receiver = (reset l.receiver).1 })
  receiver_is_reset : Step l (record l { receiver = deliver_reset l.receiver })
  receiver_dies : Step l (record l { receiver = shutdown l.receiver })

pub data Reach (s : Link) : Link → Type 0 where
  here : Reach s s
  next : {t u : Link} → Reach s t → Step t u → Reach s u
