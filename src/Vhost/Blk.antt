-- ===== src/Vhost/Blk.antt =====
-- pkg/vhost/blkreq.go: the request header and the configuration space of virtio-blk.
pub mod Layout
use sandboxer.Prelude.{
  ℕ, ◌+◌, List, [], ◌∷◌, ◌++◌, ltb, if◌then◌else◌, length, take, drop, replicate, Option, none,
  some,
}
use sandboxer.Prelude.LittleEndian.{le, le_at}

abbrev pub blk_type_in : ℕ
blk_type_in = 0

abbrev pub blk_type_out : ℕ
blk_type_out = 1

abbrev pub blk_type_flush : ℕ
blk_type_flush = 4

abbrev pub blk_type_discard : ℕ
blk_type_discard = 11

abbrev pub blk_status_ok : ℕ
blk_status_ok = 0

abbrev pub blk_status_io_err : ℕ
blk_status_io_err = 1

abbrev pub blk_status_unsupp : ℕ
blk_status_unsupp = 2

abbrev pub sector_size : ℕ
sector_size = 512

pub record BlkReqHeader : Type 0 where
  pub type : ℕ
  pub reserved : ℕ
  pub sector : ℕ

unfoldable pub parse_blk_req_header : List ℕ → Option BlkReqHeader
parse_blk_req_header b =
    if ltb (length b) 16
    then none
    else some (record { type = le_at 0 4 b; reserved = le_at 4 4 b; sector = le_at 8 8 b })

-- The fields that Marshal writes.
pub record BlkConfig : Type 0 where
  pub capacity : ℕ
  pub size_max : ℕ
  pub seg_max : ℕ
  pub cylinders : ℕ
  pub heads : ℕ
  pub sectors : ℕ
  pub blk_size : ℕ
  pub phys_blk_exp : ℕ
  pub align_offs : ℕ
  pub min_io_size : ℕ
  pub opt_io_size : ℕ
  pub writeback : ℕ
  pub unused0 : ℕ
  pub num_queues : ℕ
  pub max_disc_sec : ℕ
  pub max_disc_seg : ℕ
  pub disc_sec_aln : ℕ
  pub max_wr_z_sec : ℕ
  pub max_wr_z_seg : ℕ
  pub wr_zero_may_u : ℕ

abbrev pub blk_config_size : ℕ
blk_config_size = 60

-- Writing into a buffer at an index.
abbrev pub put : ℕ → List ℕ → List ℕ → List ℕ
put i bs xs = take i xs ++ bs ++ drop (i + length bs) xs

-- BlkConfig.Marshal.
unfoldable pub marshal : BlkConfig → List ℕ
marshal c =
    let b0 = replicate blk_config_size 0 in
    let b1 = put 0 (le 8 c.capacity) b0 in
    let b2 = put 8 (le 4 c.size_max) b1 in
    let b3 = put 12 (le 4 c.seg_max) b2 in
    let b4 = put 16 (le 2 c.cylinders) b3 in
    let b5 = put 18 (le 1 c.heads) b4 in
    let b6 = put 19 (le 1 c.sectors) b5 in
    let b7 = put 20 (le 4 c.blk_size) b6 in
    let b8 = put 24 (le 1 c.phys_blk_exp) b7 in
    let b9 = put 25 (le 1 c.align_offs) b8 in
    let b10 = put 26 (le 2 c.min_io_size) b9 in
    let b11 = put 28 (le 4 c.opt_io_size) b10 in
    let b12 = put 32 (le 1 c.writeback) b11 in
    let b13 = put 33 (le 1 c.unused0) b12 in
    let b14 = put 34 (le 2 c.num_queues) b13 in
    let b15 = put 36 (le 4 c.max_disc_sec) b14 in
    let b16 = put 40 (le 4 c.max_disc_seg) b15 in
    let b17 = put 44 (le 4 c.disc_sec_aln) b16 in
    let b18 = put 48 (le 4 c.max_wr_z_sec) b17 in
    let b19 = put 52 (le 4 c.max_wr_z_seg) b18 in put 56 (le 1 c.wr_zero_may_u) b19
