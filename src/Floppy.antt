-- ===== src/Floppy.antt =====
-- The transfer of sectors in mylysos/fdddrv.c. The controller and the DMA are the function `dma`
-- from what has been written to the ports to what then stands in memory from address 0 on.
mod Transfer
pub mod Jobs
mod Tests
use mylysos.Base.{ℕ, ◌+◌, ◌-◌, ◌*◌, ◌/◌, ◌%◌, ◌^◌, Bool, true, false, List, [], ◌∷◌, ◌++◌, u8}
use mylysos.FileSystem.{memcpy}

pub data FddJobType : Type 0 where
  fdd_read_sector fdd_write_sector : FddJobType

-- A byte that is written to a port.
pub record PortWrite : Type 0 where
  pub port : ℕ
  pub value : ℕ

abbrev pub bytes_per_sector : ℕ
bytes_per_sector = 512

abbrev pub sectors_per_track : ℕ
sectors_per_track = 18

abbrev write_port : ℕ → ℕ → PortWrite
write_port port value = record { port = port; value = value }

-- FddpWriteFdcData, behind the wait for the controller.
abbrev pub write_fdc_data : ℕ → PortWrite
write_fdc_data value = write_port 0x3f5 value

abbrev pub turn_on_motor : PortWrite
turn_on_motor = write_port 0x3f2 0x1c

-- FddpSetupDMA, from the address 0 on for a whole track.
unfoldable pub setup_dma : FddJobType → List PortWrite
setup_dma job_type =
    let count = bytes_per_sector * sectors_per_track - 1 in
    write_port 0x0b (elim job_type [ fdd_read_sector ↦ 0x46 | fdd_write_sector ↦ 0x4a ])
    ∷ write_port 0x04 0x00
    ∷ write_port 0x04 0x00
    ∷ write_port 0x81 0x00
    ∷ write_port 0x05 (u8 count)
    ∷ write_port 0x05 (u8 (count / 2 ^ 8))
    ∷ write_port 0x0a 0x02
    ∷ []

-- The calibration and the seek.
unfoldable pub seek : (head track : ℕ) → List PortWrite
seek head track =
    write_fdc_data 0x07
    ∷ write_fdc_data 0x00
    ∷ write_fdc_data 0x0f
    ∷ write_fdc_data (u8 (head * 2 ^ 2 + 0))
    ∷ write_fdc_data track
    ∷ []

-- The command that reads a track.
unfoldable pub read_command : (head track : ℕ) → List PortWrite
read_command head track =
    write_fdc_data 0xe6
    ∷ write_fdc_data (u8 (head * 2 ^ 2 + 0))
    ∷ write_fdc_data track
    ∷ write_fdc_data head
    ∷ write_fdc_data 1
    ∷ write_fdc_data 2
    ∷ write_fdc_data sectors_per_track
    ∷ write_fdc_data 27
    ∷ write_fdc_data 0xff
    ∷ []

-- What is written to the ports before the data is there.
unfoldable pub commands : FddJobType → (head track : ℕ) → List PortWrite
commands job_type head track =
    turn_on_motor ∷ (seek head track ++ (setup_dma job_type ++ read_command head track))

unfoldable pub head_of : ℕ → ℕ
head_of n = u8 (n % (sectors_per_track * 2) / sectors_per_track)

unfoldable pub track_of : ℕ → ℕ
track_of n = u8 (n / (sectors_per_track * 2))

unfoldable pub sector_of : ℕ → ℕ
sector_of n = u8 (n % sectors_per_track + 1)

-- FddpReadWriteSector for a WORD and a BYTE; the waits for interrupts are left out.
unfoldable pub read_write_sector :
    (dma : List PortWrite → ℕ → ℕ)
    → FddJobType
    → (n numbers_of_sectors : ℕ) → (ℕ → ℕ)
    → Bool × (ℕ → ℕ)
read_write_sector dma fdd_write_sector n numbers_of_sectors data_out = (false, data_out)
read_write_sector dma fdd_read_sector n numbers_of_sectors data_out =
    let memory = dma (commands fdd_read_sector (head_of n) (track_of n)) in
    let dma_addr = bytes_per_sector * (sector_of n - 1) in
    (true, memcpy (bytes_per_sector * numbers_of_sectors) memory dma_addr 0 data_out)
