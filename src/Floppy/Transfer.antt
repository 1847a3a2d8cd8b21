-- ===== src/Floppy/Transfer.antt =====
-- What a transfer from the floppy disk gives.
use mylysos.Base.{
  ℕ, ◌+◌, ◌-◌, ◌*◌, ◌/◌, ◌%◌, ◌^◌, ◌≤◌, ◌<◌, ◌≡◌, inr, refl, ap, ◌∙◌, Bool, true, List, [], ◌∷◌,
  arith, u8,
}
use mylysos.FileSystem.{memcpy}
use mylysos.FileSystem.Memcpy.{memcpy-inside, memcpy-outside}
use mylysos.Floppy.{
  PortWrite, seek, setup_dma, read_command, commands, fdd_read_sector, head_of, track_of, sector_of,
  read_write_sector,
}

abbrev at_port : ℕ → ℕ → PortWrite
at_port port value = record { port = port; value = value }

-- A disk, by track, head, sector (from 1) and byte.
abbrev pub Disk : Type 0
Disk = ℕ → ℕ → ℕ → ℕ → ℕ

-- The byte of a disk at an address: the sectors are numbered along a track, then under the other
-- head, then on the next track.
unfoldable pub byte_at : Disk → ℕ → ℕ
byte_at disk a = disk (a / 512 / 36) (a / 512 / 18 % 2) (a / 512 % 18 + 1) (a % 512)

-- What the controller has to be told: the motor is turned on (port 0x3f2); drive 0 is calibrated
-- (command 7) and sought (15); the DMA channel 2 is set to write to the address 0 the 9216 bytes of a
-- track; sectors 1 to 18 of 512 bytes are read (0xe6).
unfoldable pub told : (head track : ℕ) → List PortWrite
told head track =
    at_port 0x3f2 0x1c
    ∷ at_port 0x3f5 7
    ∷ at_port 0x3f5 0
    ∷ at_port 0x3f5 15
    ∷ at_port 0x3f5 (4 * head)
    ∷ at_port 0x3f5 track
    ∷ at_port 0x0b 0x46
    ∷ at_port 0x04 0
    ∷ at_port 0x04 0
    ∷ at_port 0x81 0
    ∷ at_port 0x05 255
    ∷ at_port 0x05 35
    ∷ at_port 0x0a 2
    ∷ at_port 0x3f5 0xe6
    ∷ at_port 0x3f5 (4 * head)
    ∷ at_port 0x3f5 track
    ∷ at_port 0x3f5 head
    ∷ at_port 0x3f5 1
    ∷ at_port 0x3f5 2
    ∷ at_port 0x3f5 18
    ∷ at_port 0x3f5 27
    ∷ at_port 0x3f5 255
    ∷ []

-- The controller, when it has been told so, reads the whole track into memory.
pub record ReadsTracks (dma : List PortWrite → ℕ → ℕ) (disk : Disk) : Type 0 where
  pub reads :
      (track head i : ℕ)
      → track < 80
      → head < 2
      → i < 512 * 18
      → dma (told head track) i ≡ disk track head (i / 512 + 1) (i % 512)

-- What the caller's buffer holds after a transfer.
pub record Transferred (disk : Disk) (n count : ℕ) (before : ℕ → ℕ) (r : Bool × (ℕ → ℕ))
    : Type 0 where
  pub success : r.0 ≡ true
  pub bytes : (i : ℕ) → i < 512 * count → r.1 i ≡ byte_at disk (n * 512 + i)
  pub behind : (i : ℕ) → 512 * count ≤ i → r.1 i ≡ before i

commands-told : (head track : ℕ) → head < 2 → commands fdd_read_sector head track ≡ told head track
unfolding commands seek setup_dma read_command told
commands-told head track h =
    let shifted : u8 (head * 2 ^ 2 + 0) ≡ 4 * head = omega arith in rw shifted refl

same_place :
    (disk : Disk) {t t' h h' k k' b b' : ℕ}
    → t ≡ t'
    → h ≡ h'
    → k ≡ k'
    → b ≡ b'
    → disk t h k b ≡ disk t' h' k' b'
same_place disk p q r s = rw (p, q, r, s) refl

same_byte :
    (disk : Disk) (n i : ℕ)
    → n % 18 * 512 + i < 512 * 18
    → disk (n / 36) (n / 18 % 2) ((512 * (n % 18) + i) / 512 + 1) ((512 * (n % 18) + i) % 512)
      ≡ byte_at disk (n * 512 + i)
unfolding byte_at
same_byte disk n i h =
    let a : n / 36 ≡ (n * 512 + i) / 512 / 36 = omega (arith, h) in
    let b : n / 18 % 2 ≡ (n * 512 + i) / 512 / 18 % 2 = omega (arith, h) in
    let c : (512 * (n % 18) + i) / 512 + 1 ≡ (n * 512 + i) / 512 % 18 + 1 = omega (arith, h) in
    let d : (512 * (n % 18) + i) % 512 ≡ (n * 512 + i) % 512 = omega (arith, h) in
    same_place disk a b c d

-- Where the sectors lie on one track, FddpReadWriteSector gives the bytes of the disk from the
-- first of them on, and writes nothing behind them.
pub read_write_sector-Transferred :
    (dma : List PortWrite → ℕ → ℕ) (disk : Disk) (n count : ℕ) (data_out : ℕ → ℕ)
    → ReadsTracks dma disk
    → n < 2880
    → n % 18 + count ≤ 18
    → Transferred disk n count data_out (read_write_sector dma fdd_read_sector n count data_out)
unfolding read_write_sector head_of track_of sector_of
read_write_sector-Transferred dma disk n count data_out reads small fits =
    let memory = dma (commands fdd_read_sector (head_of n) (track_of n)) in
    record {
      success = refl;
      bytes = λ i h.
          let track_eq : track_of n ≡ n / 36 = omega (arith, small) in
          let head_eq : head_of n ≡ n / 18 % 2 = omega (arith, small) in
          let start_eq : 512 * (sector_of n - 1) ≡ 512 * (n % 18) = omega arith in
          let from_start : i ≡ 0 + i = omega arith in
          ap (memcpy (512 * count) memory (512 * (sector_of n - 1)) 0 data_out) from_start
          ∙ memcpy-inside (512 * count) memory (512 * (sector_of n - 1)) 0 data_out i h
          ∙ ap (λ p. memory (p + i)) start_eq
          ∙ ap (λ w. dma w (512 * (n % 18) + i))
              (commands-told (head_of n) (track_of n) (omega (arith, small)))
          ∙ reads.reads (track_of n) (head_of n) (512 * (n % 18) + i) (omega (arith, small))
              (omega (arith, small)) (omega (arith, h, fits))
          ∙ same_place disk track_eq head_eq refl refl
          ∙ same_byte disk n i (omega (arith, h, fits));
      behind = λ i h.
          memcpy-outside (512 * count) memory (512 * (sector_of n - 1)) 0 data_out i
            (inr (omega (arith, h)));
    }
