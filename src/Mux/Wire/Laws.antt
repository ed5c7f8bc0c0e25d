-- ===== src/Mux/Wire/Laws.antt =====
-- WriteAll over any connection, and over one that keeps the contract of io.Writer.
use sandboxer.Prelude.{
  ℕ, zero, suc, ◌+◌, ◌≤◌, ◌<◌, ◌≡◌, refl, sym, ◌∙◌, ap, Option, none, some, List, [], ◌∷◌, ◌++◌,
  append-nil, append_assoc, take-length, arith, ltb, ◌==◌, ◌||◌, leb, length, take, drop,
  length-drop, take-add, ◌⊎◌, inl, inr, Bool-cases, ◌≢◌,
}
use sandboxer.Prelude.Int.{ℤ, pos, negsuc}
use sandboxer.Mux.Wire.{
  Source, read_full, got, IoError, short_write, frame_too_large, transport, WriteReply, Conn,
  WriteEnd, done, stuck, failed, after_write, write_all_loop, write_all,
}

-- What io.Writer documents: a call reports how many bytes of `p` it took, at most all of them,
-- and these are the ones that go out. It may take fewer without an error, which WriteAll handles.
pub record IsWriter {W : Type 0} (dev : Conn W) (written : W → List ℕ) : Type 0 where
  pub writes :
      (w : W) (p : List ℕ)
      → (n : ℕ) × (n ≤ length p)
        × ((dev.write w p).count ≡ pos n)
        × (written (dev.write w p).conn ≡ written w ++ take n p)
  pub closes : (w : W) → written (dev.close w) ≡ written w

-- A write that ended: a prefix of `p` went out, all of it on success, or less of it (or all) with
-- an error, which is never the one by which WriteFrame refuses a payload.
abbrev pub Sent {ℓ} : {W : Type ℓ} → (W → List ℕ) → W → List ℕ → WriteEnd × W → Type 0
Sent written w p out =
    (k : ℕ) × (k ≤ length p)
    × (written out.1 ≡ written w ++ take k p)
    × (((out.0 ≡ done) × (k ≡ length p))
        ⊎ ((e : IoError) × (e ≢ frame_too_large) × (out.0 ≡ failed e)))

-- After a successful write all of `p` is on the wire.
pub Sent-done :
    {W : Type 0} (written : W → List ℕ) (w : W) (p : List ℕ) (out : WriteEnd × W)
    → Sent written w p out
    → out.0 ≡ done
    → written out.1 ≡ written w ++ p
Sent-done written w p out (k, hk, on, o) d =
    let full : k ≡ length p = ground (arith, o) in
    on ∙ ap (λ l. written w ++ l) (ap (λ n. take n p) full ∙ take-length p)

-- A ReadFull takes what it was asked for, or fails.
pub read_full_consumes :
    (n : ℕ) (s t : Source) (p : List ℕ)
    → read_full n s ≡ got p t
    → (length t.bytes + n ≡ length s.bytes) × (t.ending ≡ s.ending)
unfolding read_full
read_full_consumes n s t p e = elim (Bool-cases (leb n (length s.bytes))) [
  | inl h ↦ let e' = rw h at e in ground (arith, length-drop n s.bytes)
  | inr h ↦ let e' = rw h at e in absurd (ground arith)
]

error_of : WriteEnd → IoError
error_of (failed e) = e
error_of _ = short_write

module _ {W : Type 0} (dev : Conn W) where
  after_write_cases :
      (r : WriteReply W) (p : List ℕ) (again : List ℕ → W → WriteEnd × W)
      → ((n : ℕ) × (r.count ≡ pos n)
          × (0 < n)
          × (n ≤ length p)
          × (after_write dev r p again ≡ again (drop n p) r.conn))
        ⊎ ((e : IoError) × (e ≢ frame_too_large) × (after_write dev r p again ≡ (failed e, r.conn)))
  unfolding after_write
  after_write_cases r p again = go r.failure r.count refl refl
    where
      go :
          (o : Option ℕ) (c : ℤ)
          → r.failure ≡ o
          → r.count ≡ c
          → ((n : ℕ) × (r.count ≡ pos n)
              × (0 < n)
              × (n ≤ length p)
              × (after_write dev r p again ≡ again (drop n p) r.conn))
            ⊎ ((e : IoError) × (e ≢ frame_too_large)
                × (after_write dev r p again ≡ (failed e, r.conn)))
      go (some e) c eo ec = inr (transport e, (λ q. cc), ground arith)
      go none (negsuc n) eo ec = inr (short_write, (λ q. cc), ground arith)
      go none (pos n) eo ec = elim (Bool-cases (ltb (length p) n || (n == 0))) [
        | inl t ↦ inr (short_write, (λ q. cc), ground arith)
        | inr t ↦ inl (n, ec, ground arith, ground arith, ground arith)
      ]

  -- The outcome of a run of the loop that took `k` bytes of `p`.
  record Wrote (written : W → List ℕ) (w : W) (p : List ℕ) (out : WriteEnd × W) : Type 0 where
    taken : ℕ
    in_range : taken ≤ length p
    on_wire : written out.1 ≡ written w ++ take taken p
    complete : out.0 ≡ done → taken ≡ length p

  write_all_loop-ends :
      (fuel : ℕ) (w : W) (p : List ℕ)
      → length p ≤ fuel
      → ((write_all_loop dev fuel w p).0 ≢ stuck)
        × ((write_all_loop dev fuel w p).0 ≢ failed frame_too_large)
  unfolding write_all_loop error_of
  write_all_loop-ends fuel w [] h = ((λ e. cc), (λ e. cc))
  write_all_loop-ends zero w (b ∷ p) h = absurd (omega arith)
  write_all_loop-ends (suc fuel) w (b ∷ p) h =
      elim (after_write_cases (dev.write w (b ∷ p)) (b ∷ p)
        (λ rest w'. write_all_loop dev fuel w' rest)) [
          | inl (n, _, lo, hi, e) ↦
              rw e
                (write_all_loop-ends fuel _ (drop n (b ∷ p)) (omega (arith, length-drop n (b ∷ p))))
          | inr (x, big, e) ↦ rw e ((λ q. cc), (λ q. big (ap error_of q)))
        ]

  module _ (written : W → List ℕ) (c : IsWriter dev written) where
    resume :
        (w w' : W) (p : List ℕ) (n : ℕ) (out : WriteEnd × W)
        → n ≤ length p
        → written w' ≡ written w ++ take n p
        → Wrote written w' (drop n p) out
        → Wrote written w p out
    resume w w' p n out hi e o = record {
      taken = n + o.taken;
      in_range = omega (arith, length-drop n p, o.in_range);
      on_wire = rw (o.on_wire, e, take-add n o.taken p) (append_assoc (written w) (take n p) _);
      complete = λ d. omega (arith, o.complete d, length-drop n p);
    }

    write_all_loop-Wrote :
        (fuel : ℕ) (w : W) (p : List ℕ) → Wrote written w p (write_all_loop dev fuel w p)
    unfolding write_all_loop
    write_all_loop-Wrote fuel w [] = record {
      taken = 0;
      in_range = omega arith;
      on_wire = sym (append-nil _);
      complete = λ _. refl;
    }
    write_all_loop-Wrote zero w (b ∷ p) = record {
      taken = 0;
      in_range = omega arith;
      on_wire = sym (append-nil _);
      complete = λ e. cc;
    }
    write_all_loop-Wrote (suc fuel) w (b ∷ p) =
        elim (after_write_cases (dev.write w (b ∷ p)) (b ∷ p)
          (λ rest w'. write_all_loop dev fuel w' rest)) [
            | inl (n, en, lo, hi, e) ↦
                let (n', hi', en', on) = c.writes w (b ∷ p) in
                let same : n' ≡ n = cc in
                rw e (
                  resume w _ (b ∷ p) n _ hi (on ∙ ap (λ k. written w ++ take k (b ∷ p)) same)
                    (write_all_loop-Wrote fuel _ (drop n (b ∷ p))))
            | inr (x, _, e) ↦
                let (n', hi', en', on) = c.writes w (b ∷ p) in
                rw e (record { taken = n'; in_range = hi'; on_wire = on; complete = λ q. cc })
          ]

  -- Over any connection the loop of WriteAll ends, `length p` turns are enough, and its error is
  -- never the one by which WriteFrame refuses a payload.
  pub write_all_total :
      (w : W) (p : List ℕ)
      → ((write_all dev w p).0 ≢ stuck) × ((write_all dev w p).0 ≢ failed frame_too_large)
  unfolding write_all
  write_all_total w p = write_all_loop-ends (length p) w p (omega arith)

  Sent-of_Wrote :
      (written : W → List ℕ) (w : W) (p : List ℕ) (out : WriteEnd × W)
      → out.0 ≢ stuck
      → out.0 ≢ failed frame_too_large
      → Wrote written w p out
      → Sent written w p out
  Sent-of_Wrote written w p (done, v) ne nb o =
      (o.taken, o.in_range, o.on_wire, inl (refl, o.complete refl))
  Sent-of_Wrote written w p (stuck, v) ne nb o = absurd (ne refl)
  Sent-of_Wrote written w p (failed e, v) ne nb o =
      (o.taken, o.in_range, o.on_wire, inr (e, (λ q. nb (ap failed q)), refl))

  -- Over a connection that keeps the contract of io.Writer WriteAll ends, the bytes on the wire
  -- are those before the call and then a prefix of `p`, which is all of `p` on success. On failure it
  -- may be any prefix, all of `p` included, and the error is not WriteFrame's refusal of a payload.
  pub write_all-Sent :
      (written : W → List ℕ)
      → IsWriter dev written
      → (w : W) (p : List ℕ) → Sent written w p (write_all dev w p)
  write_all-Sent written c w p =
      let (ends, small) = write_all_total w p in
      Sent-of_Wrote written w p (write_all dev w p) ends small
        (unfold write_all in write_all_loop-Wrote written c (length p) w p)
