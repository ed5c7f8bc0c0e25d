-- ===== src/Mux/Flow/Balance.antt =====
-- The accounting behind the receive window: credit, bytes in flight, bytes buffered and updates
-- on their way back.
use sandboxer.Prelude.{
  ℕ, ◌+◌, ◌-◌, ◌/◌, ◌%◌, ◌^◌, ◌<◌, ◌≤◌, ◌≡◌, ap, Option, none, some, List, [], ◌∷◌, ◌++◌, Bool,
  length, length-append, length-drop, arith, ◌⊎◌, ◌||◌, if◌then◌else◌, min,
}
use sandboxer.Mux.Frame.{Frame, decode_uint32}
use sandboxer.Mux.Frame.RoundTrip.{decode_uint32-encode_uint32}
use sandboxer.Mux.Stream.{
  Stream, MuxError, new_stream, deliver, deliver_eof, deliver_reset, add_credit, shutdown, read,
  consume, read_bytes, window_update, acquire_up_to, acquired, close_write, reset,
}
use sandboxer.Mux.Flow.{
  Link, fresh_link, owe, Step, Reach, here, next, takes_credit, sends_data, takes_data, reads,
  sends_update, takes_update, sender_closes, sender_resets, sender_is_reset, sender_dies,
  receiver_ends, receiver_resets, receiver_is_reset, receiver_dies,
}

total : List (List ℕ) → ℕ
total [] = 0
total (c ∷ cs) = length c + total cs

-- What a WINDOW_UPDATE frame adds to the sender's credit.
delta : Frame → ℕ
delta f = elim (decode_uint32 f.payload) [ some d ↦ d | none ↦ 0 ]

granted : List Frame → ℕ
granted [] = 0
granted (f ∷ fs) = delta f + granted fs

total-append : (xs ys : List (List ℕ)) → total (xs ++ ys) ≡ total xs + total ys
unfolding total
total-append [] ys = omega arith
total-append (x ∷ xs) ys = omega (arith, total-append xs ys)

granted-append : (xs ys : List Frame) → granted (xs ++ ys) ≡ granted xs + granted ys
unfolding granted
granted-append [] ys = omega arith
granted-append (x ∷ xs) ys = omega (arith, granted-append xs ys)

record IsBalanced (window : ℕ) (l : Link) : Type 0 where
  receive_window : l.receiver.window ≡ window
  balance :
      l.sender.credit
        + total l.held
        + total l.wire
        + length l.receiver.buf
        + l.receiver.consumed
        + granted l.owed
        + granted l.grants
      ≡ window
  below_half : (l.receiver.consumed ≡ 0) ⊎ (l.receiver.consumed < window / 2)

fresh-IsBalanced : (id window : ℕ) → IsBalanced window (fresh_link id window)
unfolding new_stream total granted
fresh-IsBalanced id window = ground arith

delta-window_update : (id n : ℕ) → n < 2 ^ 32 → delta (window_update id n) ≡ n
unfolding delta window_update
delta-window_update id n h = ground (arith, decode_uint32-encode_uint32 (n % 2 ^ 32))

-- A Read moves bytes from the buffer to `consumed`, and `consumed` to an update.
record Reads (st : Stream) (update : Option Frame) (st' : Stream) : Type 0 where
  same_window : st'.window ≡ st.window
  moved : length st'.buf + st'.consumed + granted (owe update []) ≡ length st.buf + st.consumed
  small : (st'.consumed ≡ 0) ⊎ (st'.consumed < st.window / 2)

consume-Reads :
    (n : ℕ) (st : Stream) (bytes : List ℕ) (update : Option Frame) (st' : Stream)
    → n ≤ length st.buf
    → length st.buf + st.consumed < 2 ^ 32
    → consume n st ≡ read_bytes bytes update st'
    → Reads st update st'
unfolding consume granted
consume-Reads n st bytes update st' h small e =
    ground (arith, length-drop n st.buf, delta-window_update st.id (st.consumed + n))

read-Reads :
    (room : ℕ) (st : Stream) (bytes : List ℕ) (update : Option Frame) (st' : Stream)
    → length st.buf + st.consumed < 2 ^ 32
    → read room st ≡ read_bytes bytes update st'
    → Reads st update st'
unfolding read
read-Reads room st bytes update st' small e =
    ground (arith, consume-Reads (min room (length st.buf)) st bytes update st')

granted-owe :
    (update : Option Frame) (fs : List Frame)
    → granted (owe update fs) ≡ granted (owe update []) + granted fs
unfolding granted
granted-owe none fs = omega arith
granted-owe (some f) fs = omega arith

delta_of_decode : (f : Frame) (d : ℕ) → decode_uint32 f.payload ≡ some d → delta f ≡ d
unfolding delta
delta_of_decode f d e = ground arith

acquire_lem :
    (want : ℕ) (refuse : Bool) (st st' : Stream) (n : ℕ)
    → acquire_up_to want refuse st ≡ acquired n st'
    → (st'.credit + n ≡ st.credit) × (0 < st.credit) × (n ≡ min st.credit want)
unfolding acquire_up_to
acquire_lem want refuse st st' n e = ground arith

deliver_lem :
    (p : List ℕ) (st st' : Stream)
    → deliver p st ≡ (none, st')
    → (length st'.buf ≡ length st.buf + length p)
      × (st'.consumed ≡ st.consumed)
      × (st'.window ≡ st.window)
unfolding deliver
deliver_lem p st st' e = ground (arith, length-append st.buf p)

module _ (window : ℕ) (small : window < 2 ^ 32) where
  Step-IsBalanced : {l l' : Link} → Step l l' → IsBalanced window l → IsBalanced window l'
  unfolding total granted close_write reset deliver_eof deliver_reset shutdown add_credit
  Step-IsBalanced {l} (takes_credit want refuse n st chunk e c) v =
      ground (arith, acquire_lem want refuse l.sender st n e)
  Step-IsBalanced {l} (sends_data before after chunk e) v = ground (
    arith,
    ap total e,
    total-append before (chunk ∷ after),
    total-append before after,
    total-append l.wire (chunk ∷ []),
  )
  Step-IsBalanced {l} (takes_data chunk rest st e d) v =
      ground (arith, ap total e, deliver_lem chunk l.receiver st d)
  Step-IsBalanced {l} (reads room bytes update st e) v =
      let r = read-Reads room l.receiver bytes update st (omega arith) e in
      ground (arith, r, granted-owe update l.owed)
  Step-IsBalanced {l} (sends_update before after f e) v = ground (
    arith,
    ap granted e,
    granted-append before (f ∷ after),
    granted-append before after,
    granted-append l.grants (f ∷ []),
  )
  Step-IsBalanced {l} (takes_update f rest d e x) v =
      ground (arith, ap granted e, delta_of_decode f d x)
  Step-IsBalanced sender_closes v = ground arith
  Step-IsBalanced sender_resets v = ground arith
  Step-IsBalanced sender_is_reset v = ground arith
  Step-IsBalanced sender_dies v = ground arith
  Step-IsBalanced receiver_ends v = ground arith
  Step-IsBalanced receiver_resets v = ground arith
  Step-IsBalanced receiver_is_reset v = ground arith
  Step-IsBalanced receiver_dies v = ground arith

  Reach-IsBalanced : {l l' : Link} → IsBalanced window l → Reach l l' → IsBalanced window l'
  Reach-IsBalanced v here = v
  Reach-IsBalanced v (next r s) = Step-IsBalanced s (Reach-IsBalanced v r)

  module _ (id : ℕ) {l : Link} (r : Reach (fresh_link id window) l) where
    reached : IsBalanced window l
    reached = Reach-IsBalanced (fresh-IsBalanced id window) r

    -- However the goroutines of both ends interleave, the next DATA frame in flight fits the
    -- receive window, so that only an EOF or a RESET on the stream can make its delivery a
    -- protocol violation.
    pub deliver_in_window :
        (chunk : List ℕ) (rest : List (List ℕ))
        → l.wire ≡ chunk ∷ rest
        → (length l.receiver.buf + length chunk ≤ window)
          × ((deliver chunk l.receiver).0
              ≡ (if l.receiver.r_eof || l.receiver.r_reset then some MuxError.protocol else none))
    unfolding deliver total
    deliver_in_window chunk rest e = ground (arith, reached, ap total e)

    -- The sender's credit never exceeds the window, so the Go int never wraps or goes negative.
    pub credit-le-window : l.sender.credit ≤ window
    credit-le-window = omega (arith, reached)

    quiet-credit :
        0 < window
        → l.held ≡ []
        → l.wire ≡ []
        → l.receiver.buf ≡ []
        → l.owed ≡ []
        → l.grants ≡ []
        → window / 2 < l.sender.credit
    unfolding total granted
    quiet-credit pos h w b o g =
        ground (arith, reached, ap total h, ap total w, ap length b, ap granted o, ap granted g)

    -- Flow control strands nobody: with nothing held, in flight, buffered or owed, more than half
    -- a window of credit is left, and a Write that wants at least a byte is granted what it wants, up
    -- to all of the credit, and leaves the rest.
    pub quiet_link_has_credit :
        (want : ℕ) (refuse : Bool)
        → 0 < window
        → 0 < want
        → l.held ≡ []
        → l.wire ≡ []
        → l.receiver.buf ≡ []
        → l.owed ≡ []
        → l.grants ≡ []
        → (st : Stream) × (window / 2 < l.sender.credit)
          × (0 < min l.sender.credit want)
          × (st.credit + min l.sender.credit want ≡ l.sender.credit)
          × (acquire_up_to want refuse l.sender ≡ acquired (min l.sender.credit want) st)
    unfolding acquire_up_to
    quiet_link_has_credit want refuse pos more h w b o g =
        let half = quiet-credit pos h w b o g in
        (
          record l.sender { credit = l.sender.credit - min l.sender.credit want },
          half,
          omega arith,
          omega arith,
          ground (arith, credit-le-window),
        )
