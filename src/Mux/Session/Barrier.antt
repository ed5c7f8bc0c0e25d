-- ===== src/Mux/Session/Barrier.antt =====
-- What the write of writeFrame (session.go) does to the wire once its tests have passed.
use sandboxer.Prelude.{
  ℕ, ◌≤◌, ◌≡◌, refl, ◌∙◌, ◌==◌, ◌||◌, Bool, true, length, take, List, ◌++◌, arith, ◌⊎◌, inl, inr,
  ◌≢◌,
}
use sandboxer.Mux.Wire.{IoError, frame_too_large, Conn, WriteEnd, done, stuck, failed}
use sandboxer.Mux.Wire.Laws.{IsWriter, Sent, Sent-done}
use sandboxer.Mux.Frame.{
  Frame, frame_mux_close, frame_mux_close_ack, max_frame_payload, write_frame,
}
use sandboxer.Mux.Frame.RoundTrip.{wire}
use sandboxer.Mux.Frame.Write.{write_frame_prefix}
use sandboxer.Mux.Session.{Session, set_err, close, retire_on, finish_write}

abbrev pub is_ack : Frame → Bool
is_ack f = f.type == frame_mux_close_ack

abbrev pub is_close : Frame → Bool
is_close f = f.type == frame_mux_close || f.type == frame_mux_close_ack

module _ {W : Type 0} (written : W → List ℕ) where
  -- The three things that the write does to the wire: nothing, a whole frame, or a part of one.
  pub record Unwritten (s s' : Session W) : Type 0 where
    pub same : written s'.conn ≡ written s.conn
    pub retired' : s'.retired ≡ s.retired
    pub sealed' : s'.sealed ≡ s.sealed

  pub record Written (f : Frame) (s s' : Session W) : Type 0 where
    pub retired' : s'.retired ≡ s.retired
    pub sealed' : s'.sealed ≡ s.sealed
    pub short : length f.payload ≤ max_frame_payload
    pub extended : written s'.conn ≡ written s.conn ++ wire f

  pub record Broken (f : Frame) (s s' : Session W) : Type 0 where
    pub retires : s'.retired ≡ true
    pub sealed' : s'.sealed ≡ s.sealed
    pub short : length f.payload ≤ max_frame_payload
    pub part : ℕ
    pub extended : written s'.conn ≡ written s.conn ++ take part (wire f)

  abbrev pub Effect : Frame → Session W → Session W → Type 0
  Effect f s s' = Unwritten s s' ⊎ Written f s s' ⊎ Broken f s s'

module _ {W : Type 0} (dev : Conn W) (written : W → List ℕ) (c : IsWriter dev written) where
  retire_on-Broken :
      (e : IoError) (s : Session W)
      → e ≢ frame_too_large
      → (written (retire_on dev e s).1.conn ≡ written s.conn)
        × ((retire_on dev e s).1.retired ≡ true)
        × ((retire_on dev e s).1.sealed ≡ s.sealed)
  unfolding retire_on close set_err
  retire_on-Broken frame_too_large s h = absurd (h refl)
  retire_on-Broken e s h = ground (arith, c.closes s.conn)

  finish_write-Effect :
      (f : Frame) (s : Session W) (out : WriteEnd × W)
      → length f.payload ≤ max_frame_payload
      → Sent written s.conn (wire f) out
      → Effect written f s (finish_write dev s out).1
  unfolding finish_write
  finish_write-Effect f s (done, w) sh sent = inr (
      inl (record {
        retired' = refl;
        sealed' = refl;
        short = sh;
        extended = Sent-done written s.conn (wire f) (done, w) sent refl;
      }))
  finish_write-Effect f s (stuck, w) sh (k, hk, on, o) = absurd (ground (arith, o))
  finish_write-Effect f s (failed e, w) sh (k, hk, on, o) =
      let (same, ret, seal) = retire_on-Broken e (record s { conn = w }) (ground (arith, o)) in
      inr
        (inr (record { retires = ret; sealed' = seal; short = sh; part = k; extended = same ∙ on }))

  -- The write of a frame, whether or not the session has been retired since its tests passed.
  pub write-Effect :
      (f : Frame) (s : Session W)
      → Effect written f s (finish_write dev s (write_frame dev s.conn f)).1
  unfolding finish_write retire_on
  write-Effect f s = elim (write_frame_prefix dev written c s.conn f) [
    | inl (big, q) ↦ rw q (inl (record { same = refl; retired' = refl; sealed' = refl }))
    | inr (small, sent) ↦ finish_write-Effect f s _ small sent
  ]
