-- ===== src/Floppy/Tests.antt =====
-- A transfer from a sample disk.
use mylysos.Base.{ℕ, ◌+◌, ◌*◌, ◌/◌, ◌%◌, ◌≡◌, refl, List, arith, get_or, update}
use mylysos.FileSystem.{memcpy}
use mylysos.Floppy.{
  PortWrite, fdd_read_sector, read_write_sector, commands, seek, setup_dma, read_command, head_of,
  track_of, sector_of,
}
use mylysos.Floppy.Transfer.{Disk, ReadsTracks, Transferred, told, read_write_sector-Transferred}

abbrev disk : Disk
disk track head sector byte = track * 1000 + head * 100 + sector + byte

abbrev no_write : PortWrite
no_write = record { port = 0; value = 0 }

-- A controller that takes track and head from the command.
abbrev dma : List PortWrite → ℕ → ℕ
dma ws i = disk (get_or ws 15 no_write).value (get_or ws 16 no_write).value (i / 512 + 1) (i % 512)

dma-ReadsTracks : ReadsTracks dma disk
unfolding told
dma-ReadsTracks = record { reads = λ track head i a b c. refl }

-- Sector 60 is the seventh one of track 1, head 1.
sector : (read_write_sector dma fdd_read_sector 60 1 (λ i. 0)).1 3 ≡ 1110
unfolding read_write_sector commands seek setup_dma read_command head_of track_of sector_of memcpy
    update
sector = refl

read_write_sector-Transferred_example :
    Transferred disk 60 2 (λ i. 0) (read_write_sector dma fdd_read_sector 60 2 (λ i. 0))
read_write_sector-Transferred_example =
    read_write_sector-Transferred dma disk 60 2 (λ i. 0) dma-ReadsTracks (omega arith) (omega arith)
