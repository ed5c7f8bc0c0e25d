-- ===== src/Mux/Wire.antt =====
-- internal/wireio/write.go and the byte streams under a frame: an io.Writer as an interface, and
-- io.ReadFull over the bytes that a connection still delivers.
pub mod Laws
use sandboxer.Prelude.{
  ℕ, zero, suc, ◌+◌, ◌-◌, ◌≤◌, ◌<◌, ◌≡◌, refl, sym, ◌∙◌, ap, Option, none, some, List, [], ◌∷◌,
  ◌++◌, append-nil, append_assoc, arith, ltb, leb, ◌==◌, if◌then◌else◌, ◌||◌, Bool, true, false,
  length, take, drop, length-drop, ◌⊎◌, inl, inr, Bool-cases, Option-cases,
}
use sandboxer.Prelude.Int.{ℤ, pos, negsuc}

-- The errors that the framing code tells apart. `transport` carries the connection's own error.
pub data IoError : Type 0 where
  short_write eof unexpected_eof frame_too_large : IoError
  transport : ℕ → IoError

-- What one call of Write returns, and the connection after it. The count is a Go int, the
-- failure an error of the connection's own.
pub record WriteReply (W : Type 0) : Type 0 where
  pub count : ℤ
  pub failure : Option ℕ
  pub conn : W

-- io.Writer and io.Closer of a connection.
pub record Conn (W : Type 0) : Type 0 where
  pub write : W → List ℕ → WriteReply W
  pub close : W → W

-- What a loop of writes ends with. `stuck` is no Go value: the fuel ran out.
pub data WriteEnd : Type 0 where
  done stuck : WriteEnd
  failed : IoError → WriteEnd

module _ {W : Type 0} (dev : Conn W) where
  -- One turn of the loop on a nonempty rest `p`: what to do with the rest that is left.
  after_write : WriteReply W → List ℕ → (List ℕ → W → WriteEnd × W) → WriteEnd × W
  after_write r p again = elim r.failure [
    | some e ↦ (failed (transport e), r.conn)
    | none ↦ elim r.count [
      | negsuc n ↦ (failed short_write, r.conn)
      | pos n ↦
          let rest = again (drop n p) r.conn in
          if ltb (length p) n || (n == 0) then (failed short_write, r.conn) else rest
    ]
  ]

  write_all_loop : ℕ → W → List ℕ → WriteEnd × W
  unfolding after_write
  write_all_loop fuel w [] = (done, w)
  write_all_loop zero w (b ∷ p) = (stuck, w)
  write_all_loop (suc fuel) w (b ∷ p) =
      after_write (dev.write w (b ∷ p)) (b ∷ p) (λ rest w'. write_all_loop fuel w' rest)

  -- WriteAll: each turn takes a byte at least, so `length p` turns are enough.
  unfoldable pub write_all : W → List ℕ → WriteEnd × W
  unfolding write_all_loop
  write_all w p = write_all_loop (length p) w p

-- What a connection still delivers, and how its bytes end.
pub data StreamEnd : Type 0 where
  at_eof : StreamEnd
  broken : ℕ → StreamEnd

pub record Source : Type 0 where
  pub bytes : List ℕ
  pub ending : StreamEnd

pub data ReadResult {ℓ} (A : Type ℓ) : Type ℓ where
  got : A → Source → ReadResult A
  lost : IoError → ReadResult A

-- The error of io.ReadFull when fewer bytes arrive than it wants.
abbrev pub read_error : Source → IoError
read_error s = elim s.ending [
  | broken e ↦ transport e
  | at_eof ↦ elim s.bytes [ [] ↦ eof | b ∷ bs ↦ unexpected_eof ]
]

-- io.ReadFull of `n` bytes, for 0 < n.
unfoldable pub read_full : ℕ → Source → ReadResult (List ℕ)
read_full n s =
    if leb n (length s.bytes)
    then got (take n s.bytes) (record s { bytes = drop n s.bytes })
    else lost (read_error s)
