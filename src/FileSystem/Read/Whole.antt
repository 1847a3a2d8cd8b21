-- ===== src/FileSystem/Read/Whole.antt =====
-- A call of FsReadFile as a whole.
use native.Mathlib.Decide.{dec_lt, ℕ_discrete}
use mylysos.Base.{
  ℕ, ◌+◌, ◌-◌, ◌^◌, ◌≤◌, ◌<◌, ◌≡◌, ◌≢◌, ◌⊎◌, inr, refl, sym, ap, ◌∙◌, Option, some, true, false,
  arith, ltb, leb, ◌==◌, if◌then◌else◌, u32, min,
}
use mylysos.FileSystem.{FileControlBlock, ReadState, read_loop, read_file}
use mylysos.FileSystem.Read.{OnDisk, IsOpen, byte_at, read_loop-ReadDone}

module _ (read_sector : ℕ → Option (ℕ → ℕ)) (fat : ℕ → ℕ) where
  abbrev start : FileControlBlock → (ℕ → ℕ) → ReadState
  start f data_out = record { file = f; data_out = data_out; bytes_read = 0 }

  read_file-nothing :
      (f : FileControlBlock) (data_out : ℕ → ℕ) (n : ℕ)
      → (n ≡ 0) ⊎ (f.filesize ≤ f.bytesread)
      → read_file read_sector fat f data_out n ≡ some (start f data_out)
  unfolding read_file
  read_file-nothing f data_out n e = ground (arith, e)

  read_file-loop :
      (f : FileControlBlock) (data_out : ℕ → ℕ) (n w : ℕ)
      → n ≢ 0
      → f.bytesread < f.filesize
      → f.filesize < 2 ^ 31
      → n < 2 ^ 31
      → w ≡ min n (f.filesize - f.bytesread)
      → read_file read_sector fat f data_out n ≡ read_loop read_sector fat w w (start f data_out)
  unfolding read_file
  read_file-loop f data_out n w ne lt small less e =
      let wanted : (if ltb (u32 (f.bytesread + n)) f.filesize then n else f.filesize - f.bytesread)
          ≡ w =
        ground (arith, e, lt, small, less) in
      let some_bytes : (n == 0) ≡ false = ground (arith, ne) in
      let not_end : leb f.filesize f.bytesread ≡ false = ground (arith, lt) in
      rw (some_bytes, not_end, wanted) refl

  module _ (clusters : ℕ → ℕ) (sectors : ℕ → ℕ → ℕ) (size : ℕ) where
    -- For an open file of less than 2 GB on the disk and a request for less than 2 GB, FsReadFile
    -- returns the number of bytes asked for, or of those left if there are fewer, moves on by that
    -- number, leaves the file open, and writes exactly those bytes of the file to the buffer: the
    -- byte `j` of the buffer is the next one of the file but `j`, or as before behind them.
    pub read_file-byte_at :
        (f : FileControlBlock) (data_out : ℕ → ℕ) (n j : ℕ)
        → OnDisk read_sector fat clusters sectors size
        → IsOpen read_sector fat clusters sectors size f
        → n < 2 ^ 31
        → let w = min n (size - f.bytesread) in
          (s : ReadState) × (read_file read_sector fat f data_out n ≡ some s)
          × (s.bytes_read ≡ w)
          × (s.file.bytesread ≡ f.bytesread + w)
          × IsOpen read_sector fat clusters sectors size s.file
          × (s.data_out j ≡ (
              if ltb j w
              then byte_at read_sector fat clusters sectors size (f.bytesread + j)
              else data_out j))
    read_file-byte_at f data_out n j d o less =
        let w = min n (size - f.bytesread) in
        elim (ℕ_discrete w 0) [
          | yes z ↦ (
            start f data_out,
            read_file-nothing f data_out n (ground (arith, z, o.size_eq)),
            sym z,
            omega (arith, z),
            o,
            ground (arith, z),
          )
          | no nz ↦
              let (s, run, done) =
                read_loop-ReadDone read_sector fat clusters sectors size d w w (start f data_out) o
                  (omega arith) (omega (arith, o.within)) in
              (
                s,
                read_file-loop f data_out n w (λ e. omega (arith, e, nz))
                      (omega (arith, nz, o.size_eq)) (omega (arith, o.size_eq, d.small)) less
                      (omega (arith, o.size_eq))
                    ∙ run,
                done.count ∙ omega arith,
                done.position,
                done.still_open,
                elim (dec_lt j w) [
                  | yes lt ↦
                      let test : ltb j w ≡ true = ground (arith, lt) in
                      let zero_more : 0 + j ≡ j = omega arith in
                      rw test (ap s.data_out (sym zero_more) ∙ done.bytes j lt)
                  | no ge ↦
                      let test : ltb j w ≡ false = ground (arith, ge) in
                      rw test (done.kept j (inr (omega (arith, ge))))
                ],
              )
        ]
