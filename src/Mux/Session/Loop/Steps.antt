-- ===== src/Mux/Session/Loop/Steps.antt =====
-- The functions of pkg/mux/session.go that run on the read loop, and InitMuxClose, as sequences of
-- the steps of Mux.Session.Trace.
use sandboxer.Prelude.{
  ℕ, zero, suc, length, ◌≡◌, refl, Option, none, some, [], Bool, true, false, arith, ◌⊎◌, inl, inr,
  ◌≢◌, Bool-cases, ◌==◌,
}
use sandboxer.Mux.Wire.{Conn, Source, eof, short_write, unexpected_eof, frame_too_large, transport}
use sandboxer.Mux.Frame.{
  Frame, IsFrame, FrameResult, frame, bad_header, bad_payload, frame_mux_close, frame_mux_close_ack,
  read_frame,
}
use sandboxer.Mux.Stream.{MuxError, protocol}
use sandboxer.Mux.Session.{Session, set_err, close, control, init_mux_close, after_close}
use sandboxer.Mux.Session.Trace.{
  Moment, closes, retires, changes, Run, Reach, send-Reach, here, next,
}
use sandboxer.Mux.Session.Loop.{
  dispatch, dispatch_data, dispatch_update, dispatch_winsize, dispatch_exit, dispatch_close,
  acknowledged, dispatched, read_turn, read_lost, finish, after_turn, read_loop_fuel, read_loop,
}

abbrev Keeps : {W : Type 0} → Session W → Session W → Type 0
Keeps s t = (t.conn ≡ s.conn) × (t.retired ≡ s.retired) × (t.sealed ≡ s.sealed)

module _ {W : Type 0} (dev : Conn W) where
  dispatch_data-Keeps : (f : Frame) (s : Session W) → Keeps s (dispatch_data f s).1
  unfolding dispatch_data
  dispatch_data-Keeps f s = ground arith

  dispatch-Keeps :
      (f : Frame) (s : Session W) → f.type ≢ frame_mux_close → Keeps s (dispatch dev f s).1
  unfolding dispatch dispatch_update dispatch_winsize dispatch_exit
  dispatch-Keeps f s h = ground (arith, dispatch_data-Keeps f s)

  control-IsFrame : (t : ℕ) → t ≡ frame_mux_close ⊎ t ≡ frame_mux_close_ack → IsFrame (control t [])
  unfolding control
  control-IsFrame t h = omega arith

  Run-trans : {m n o : Moment W} → Run dev m n → Run dev n o → Run dev m o
  Run-trans r here = r
  Run-trans r (next q st) = next (Run-trans r q) st

  pub Reach-trans : {s t u : Session W} → Reach dev s t → Reach dev t u → Reach dev s u
  Reach-trans r q = Run-trans r q

  one : {s t u : Session W} → Reach dev s t → Keeps t u → Reach dev s u
  one {u = u} r (a, b, c) = next r (changes u a b c)

  set_err-Keeps : (e : MuxError) (s : Session W) → Keeps s (set_err e s)
  unfolding set_err
  set_err-Keeps e s = ground arith

  acknowledged-Reach :
      (s : Session W) (o : Option MuxError × Session W)
      → Reach dev s o.1
      → Reach dev s (acknowledged dev o).1
  unfolding acknowledged
  acknowledged-Reach s (some e, t) r = r
  acknowledged-Reach s (none, t) r = next r closes

  dispatch_close-Reach : (s : Session W) → Reach dev s (dispatch_close dev s).1
  unfolding dispatch_close
  dispatch_close-Reach s = acknowledged-Reach s _ (
      send-Reach dev _ (control frame_mux_close_ack []) (control-IsFrame _ (inr refl))
        (one here (refl, refl, refl)))

  mux_close_routes :
      (f : Frame) (s : Session W)
      → f.type ≡ frame_mux_close
      → (dispatch dev f s ≡ dispatch_close dev s) ⊎ (dispatch dev f s ≡ (some protocol, s))
  unfolding dispatch
  mux_close_routes f s t = ground arith

  pub dispatch-Reach : (f : Frame) (s : Session W) → Reach dev s (dispatch dev f s).1
  dispatch-Reach f s = elim (Bool-cases (f.type == frame_mux_close)) [
    | inl t ↦ elim (mux_close_routes f s (ground arith)) [
      | inl e ↦ rw e (dispatch_close-Reach s)
      | inr e ↦ rw e here
    ]
    | inr t ↦ one here (dispatch-Keeps f s (ground arith))
  ]

  dispatched-Reach :
      (f : Frame) (s : Session W) (o : Option MuxError × Session W)
      → Reach dev s o.1
      → Reach dev s (dispatched dev f o).0
  unfolding dispatched
  dispatched-Reach f s (some e, t) r = next (one r (set_err-Keeps e t)) closes
  dispatched-Reach f s (none, t) r = r

  read_lost-Reach : (e : MuxError) (b : Bool) (s : Session W) → Reach dev s (read_lost dev e b s)
  unfolding read_lost
  read_lost-Reach e b s =
      let k = set_err-Keeps e (close dev s) in one (next here closes) (ground arith)

  pub read_turn-Reach : (r : FrameResult) (s : Session W) → Reach dev s (read_turn dev r s).0
  unfolding read_turn
  read_turn-Reach (frame f src) s = dispatched-Reach f s _ (dispatch-Reach f s)
  read_turn-Reach (bad_header eof) s = read_lost-Reach _ true s
  read_turn-Reach (bad_header short_write) s = read_lost-Reach _ false s
  read_turn-Reach (bad_header unexpected_eof) s = read_lost-Reach _ false s
  read_turn-Reach (bad_header frame_too_large) s = read_lost-Reach _ false s
  read_turn-Reach (bad_header (transport e)) s = read_lost-Reach _ false s
  read_turn-Reach (bad_payload e) s = read_lost-Reach _ false s

  finish-Reach : {s t : Session W} → Reach dev s t → Reach dev s (finish t)
  unfolding finish
  finish-Reach r = one (next r retires) (refl, refl, refl)

  after_turn-Reach :
      (s : Session W) (r : FrameResult) (o : Session W × Bool)
      (again : Source → Session W → Session W)
      → Reach dev s o.0
      → ((src : Source) → Reach dev s (again src o.0))
      → Reach dev s (after_turn dev r o again)
  unfolding after_turn
  after_turn-Reach s r (t, true) again h k = finish-Reach h
  after_turn-Reach s (frame f src) (t, false) again h k = k src
  after_turn-Reach s (bad_header e) (t, false) again h k = finish-Reach h
  after_turn-Reach s (bad_payload e) (t, false) again h k = finish-Reach h

  read_loop_fuel-Reach :
      (fuel : ℕ) (src : Source) (s t : Session W)
      → Reach dev s t
      → Reach dev s (read_loop_fuel dev fuel src t)
  unfolding read_loop_fuel
  read_loop_fuel-Reach zero src s t r = r
  read_loop_fuel-Reach (suc fuel) src s t r =
      let one_turn = Reach-trans r (read_turn-Reach (read_frame src) t) in
      after_turn-Reach s (read_frame src) _ _ one_turn
        (λ src'. read_loop_fuel-Reach fuel src' s _ one_turn)

  -- The whole read loop is a run of steps.
  pub read_loop-Reach : (src : Source) (s : Session W) → Reach dev s (read_loop dev src s)
  unfolding read_loop
  read_loop-Reach src s = read_loop_fuel-Reach (suc (length src.bytes)) src s s here

  after_close_state : (o : Option MuxError × Session W) → (after_close dev o).1 ≡ o.1
  unfolding after_close
  after_close_state (some e, s) = refl
  after_close_state (none, s) = refl

  -- So is InitMuxClose up to its wait.
  pub init_mux_close-Reach : (s : Session W) → Reach dev s (init_mux_close dev s).1
  unfolding init_mux_close
  init_mux_close-Reach s = elim (Bool-cases s.close_initiated) [
    | inl t ↦ rw t here
    | inr t ↦
        rw (t, after_close_state)
          (send-Reach dev _ (control frame_mux_close []) (control-IsFrame _ (inl refl))
            (one here (refl, refl, refl)))
  ]
