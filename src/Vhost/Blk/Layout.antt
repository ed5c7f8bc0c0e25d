-- ===== src/Vhost/Blk/Layout.antt =====
-- Where the fields of pkg/vhost/blkreq.go lie.
use sandboxer.Prelude.{ℕ, ◌^◌, ◌<◌, ◌≡◌, refl, some, List, ◌++◌, length, arith}
use sandboxer.Prelude.LittleEndian.{le, le_at, of_le-le}
use sandboxer.Vhost.Blk.{BlkReqHeader, parse_blk_req_header, BlkConfig, blk_config_size, marshal}

-- A driver that puts type, reserved word and sector one after the other, each little-endian, is
-- read back as it meant, whatever follows in the descriptor.
pub parse_blk_req_header-le :
    (h : BlkReqHeader) (rest : List ℕ)
    → h.type < 2 ^ 32
    → h.reserved < 2 ^ 32
    → h.sector < 2 ^ 64
    → parse_blk_req_header (le 4 h.type ++ le 4 h.reserved ++ le 8 h.sector ++ rest) ≡ some h
unfolding parse_blk_req_header
parse_blk_req_header-le h rest t r s =
    rw
      (
        of_le-le 4 h.type (omega (arith, t)),
        of_le-le 4 h.reserved (omega (arith, r)),
        of_le-le 8 h.sector (omega (arith, s)),
      )
      (ground arith)

-- The configuration space has 60 bytes, and a driver that reads it by the offsets of struct
-- virtio_blk_config finds the capacity, the block size, the number of queues and the limits on
-- discard that were put in.
pub marshal-le_at :
    (c : BlkConfig)
    → c.capacity < 2 ^ 64
    → c.blk_size < 2 ^ 32
    → c.num_queues < 2 ^ 16
    → c.max_disc_sec < 2 ^ 32
    → c.max_disc_seg < 2 ^ 32
    → c.disc_sec_aln < 2 ^ 32
    → (length (marshal c) ≡ blk_config_size)
      × (le_at 0 8 (marshal c) ≡ c.capacity)
      × (le_at 20 4 (marshal c) ≡ c.blk_size)
      × (le_at 34 2 (marshal c) ≡ c.num_queues)
      × (le_at 36 4 (marshal c) ≡ c.max_disc_sec)
      × (le_at 40 4 (marshal c) ≡ c.max_disc_seg)
      × (le_at 44 4 (marshal c) ≡ c.disc_sec_aln)
unfolding marshal
marshal-le_at c capacity blk_size num_queues max_disc_sec max_disc_seg disc_sec_aln = (
  refl,
  of_le-le 8 c.capacity (omega (arith, capacity)),
  of_le-le 4 c.blk_size (omega (arith, blk_size)),
  of_le-le 2 c.num_queues (omega (arith, num_queues)),
  of_le-le 4 c.max_disc_sec (omega (arith, max_disc_sec)),
  of_le-le 4 c.max_disc_seg (omega (arith, max_disc_seg)),
  of_le-le 4 c.disc_sec_aln (omega (arith, disc_sec_aln)),
)
