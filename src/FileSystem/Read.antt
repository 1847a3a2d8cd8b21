-- ===== src/FileSystem/Read.antt =====
-- FsReadFile reads the bytes of the file.
pub mod Whole
use mathlib.Core.Path.{subst}
use native.Mathlib.Decide.{dec_lt, ℕ_discrete}
use mylysos.Base.{
  ℕ, zero, suc, ◌+◌, ◌-◌, ◌*◌, ◌/◌, ◌%◌, ◌^◌, ◌≤◌, ◌<◌, ◌≡◌, ◌≢◌, ◌⊎◌, inl, inr, refl, sym, ap, ◌∙◌,
  Bool, true, false, not, ◌||◌, Option, none, some, arith, update, update_self, update_ne, ltb, leb,
  ◌==◌, if◌then◌else◌, u16, u32, min,
}
use mylysos.FileSystem.{
  FileControlBlock, ReadState, bytes_per_sector, cluster_offset, get_next_cluster, memcpy,
  load_next, read_loop, read_file,
}
use mylysos.FileSystem.Memcpy.{memcpy-inside, memcpy-outside}
use mylysos.FileSystem.Rounds.{
  moved, size_of_round, loop-end, loop-inside, loop-more, loop-stop, load_next-keeps,
  load_next-some,
}

module _ (read_sector : ℕ → Option (ℕ → ℕ)) (fat : ℕ → ℕ) where
  module _ (clusters : ℕ → ℕ) (sectors : ℕ → ℕ → ℕ) (size : ℕ) where
    -- The disk holds a file of `size` bytes: its clusters are linked in the table, their numbers
    -- are those of data, and each can be read.
    pub record OnDisk : Type 0 where
      pub linked :
          (i : ℕ)
          → (i + 1) * bytes_per_sector < size
          → get_next_cluster fat (clusters i) ≡ clusters (i + 1)
      pub from : (i : ℕ) → i * bytes_per_sector < size → 0x2 ≤ clusters i
      pub to : (i : ℕ) → i * bytes_per_sector < size → clusters i ≤ 0xfef
      pub readable :
          (i : ℕ)
          → i * bytes_per_sector < size
          → read_sector (u16 (clusters i + cluster_offset)) ≡ some (sectors i)
      pub small : size < 2 ^ 31

    -- The byte of the file at an offset.
    abbrev pub byte_at : ℕ → ℕ
    byte_at j = sectors (j / bytes_per_sector) (j % bytes_per_sector)

    -- An open file: unless it is read to the end, its buffer holds the sector to read on from.
    pub record IsOpen (f : FileControlBlock) : Type 0 where
      pub size_eq : f.filesize ≡ size
      pub within : f.bytesread ≤ size
      pub cluster_eq :
          f.bytesread < size → f.cur_cluster ≡ clusters (f.bytesread / bytes_per_sector)
      pub buffer_eq : f.bytesread < size → f.buffer ≡ sectors (f.bytesread / bytes_per_sector)

    -- What reading `n` bytes from the state `s` on leaves.
    pub record ReadDone (n : ℕ) (s s' : ReadState) : Type 0 where
      pub count : s'.bytes_read ≡ s.bytes_read + n
      pub position : s'.file.bytesread ≡ s.file.bytesread + n
      pub still_open : IsOpen s'.file
      pub bytes : (j : ℕ) → j < n → s'.data_out (s.bytes_read + j) ≡ byte_at (s.file.bytesread + j)
      pub kept :
          (a : ℕ) → (a < s.bytes_read) ⊎ (s.bytes_read + n ≤ a) → s'.data_out a ≡ s.data_out a

    -- A round, and the rounds after it.
    ReadDone-then :
        (c n : ℕ) (s s1 s' : ReadState)
        → 0 < c
        → c ≤ n
        → s.file.bytesread + n ≤ size
        → size < 2 ^ 31
        → s.file.bytesread % bytes_per_sector + c ≤ bytes_per_sector
        → IsOpen s.file
        → s1.bytes_read ≡ s.bytes_read + c
        → s1.file.bytesread ≡ s.file.bytesread + c
        → s1.data_out
          ≡ memcpy c s.file.buffer (s.file.bytesread % bytes_per_sector) s.bytes_read s.data_out
        → ReadDone (n - c) s1 s'
        → ReadDone n s s'
    ReadDone-then c n s s1 s' pos le fits small room o rd pn dt d = record {
      count = omega (arith, d.count);
      position = omega (arith, d.position);
      still_open = d.still_open;
      bytes = λ j lt. elim (dec_lt j c) [
        | yes early ↦
            d.kept (s.bytes_read + j) (inl (omega arith))
            ∙ ap (λ (f : ℕ → ℕ). f (s.bytes_read + j)) dt
            ∙ memcpy-inside c s.file.buffer (s.file.bytesread % bytes_per_sector) s.bytes_read
                s.data_out j early
            ∙ ap (λ (f : ℕ → ℕ). f (s.file.bytesread % bytes_per_sector + j))
                (o.buffer_eq (omega (arith, pos)))
            ∙ sector_of (s.file.bytesread) j (omega (arith, early))
        | no late ↦
            let here : s.bytes_read + j ≡ s1.bytes_read + (j - c) = omega arith in
            let there : s1.file.bytesread + (j - c) ≡ s.file.bytesread + j = omega arith in
            ap s'.data_out here ∙ d.bytes (j - c) (omega arith) ∙ ap byte_at there
      ];
      kept = λ a out.
          d.kept a (ground (arith, out, rd, le))
          ∙ ap (λ (f : ℕ → ℕ). f a) dt
          ∙ memcpy-outside c s.file.buffer (s.file.bytesread % bytes_per_sector) s.bytes_read
              s.data_out a (ground (arith, out, le));
    }
      where
        sector_of :
            (b j : ℕ)
            → b % bytes_per_sector + j < bytes_per_sector
            → sectors (b / bytes_per_sector) (b % bytes_per_sector + j) ≡ byte_at (b + j)
        sector_of b j h =
            let x : b / bytes_per_sector ≡ (b + j) / bytes_per_sector = omega arith in
            let y : b % bytes_per_sector + j ≡ (b + j) % bytes_per_sector = omega arith in
            ap (λ i. sectors i (b % bytes_per_sector + j)) x
            ∙ ap (sectors ((b + j) / bytes_per_sector)) y

    -- The file after a round that stays within the sector.
    IsOpen-inside :
        (f : FileControlBlock) (c : ℕ)
        → IsOpen f
        → f.bytesread + c ≤ size
        → size < 2 ^ 31
        → f.bytesread % bytes_per_sector + c < bytes_per_sector
        → IsOpen (record f { bytesread = u32 (f.bytesread + c) })
    IsOpen-inside f c o fits small room =
        let sum : u32 (f.bytesread + c) ≡ f.bytesread + c = omega arith in
        let same : f.bytesread / bytes_per_sector ≡ (f.bytesread + c) / bytes_per_sector =
          omega arith in
        record {
          size_eq = o.size_eq;
          within = omega arith;
          cluster_eq = λ lt.
              o.cluster_eq (omega (arith, lt))
              ∙ ap clusters (same ∙ ap (λ x. x / bytes_per_sector) (sym sum));
          buffer_eq = λ lt.
              o.buffer_eq (omega (arith, lt))
              ∙ ap sectors (same ∙ ap (λ x. x / bytes_per_sector) (sym sum));
        }

    abbrev pub Goal : ℕ → ℕ → ReadState → Type 0
    Goal fuel n s =
        (s' : ReadState) × (read_loop read_sector fat fuel n s ≡ some s') × ReadDone n s s'

    -- The file after a round that ends the sector.
    module _ (d : OnDisk) where
      -- At the end of the file.
      round-last :
          (fuel n c : ℕ) (s : ReadState)
          → IsOpen s.file
          → 0 < c
          → n ≡ c
          → s.file.bytesread + n ≡ size
          → size_of_round n s ≡ c
          → s.file.bytesread % bytes_per_sector + c ≡ bytes_per_sector
          → Goal (suc fuel) n s
      round-last fuel n c s o pos all ends e room =
          go (load_next read_sector fat (moved c s).file) refl
        where
          keeps :
              ((load_next read_sector fat (moved c s).file).1.bytesread
                ≡ u32 (s.file.bytesread + c))
              × ((load_next read_sector fat (moved c s).file).1.filesize ≡ s.file.filesize)
          keeps = load_next-keeps read_sector fat (moved c s).file

          finished :
              (f : FileControlBlock)
              → f.bytesread ≡ u32 (s.file.bytesread + c)
              → f.filesize ≡ s.file.filesize
              → ReadDone n s (record (moved c s) { file = f })
          finished f p q =
              let open_end : IsOpen f = record {
                size_eq = q ∙ o.size_eq;
                within = omega (arith, p, ends, all);
                cluster_eq = λ lt. absurd (omega (arith, lt, p, ends, all, d.small));
                buffer_eq = λ lt. absurd (omega (arith, lt, p, ends, all, d.small));
              } in
              let s1 : ReadState = record (moved c s) { file = f } in
              ReadDone-then c n s s1 s1 pos (omega (arith, all)) (omega (arith, ends)) d.small
                (omega (arith, room)) o refl (omega (arith, p, ends, all, d.small)) refl
                (record {
                  count = omega (arith, all);
                  position = omega (arith, all);
                  still_open = open_end;
                  bytes = λ j lt. absurd (omega (arith, lt, all));
                  kept = λ a out. refl;
                })

          go :
              (r : Bool × FileControlBlock)
              → load_next read_sector fat (moved c s).file ≡ r
              → Goal (suc fuel) n s
          go (true, f) run =
              let s1 : ReadState = record (moved c s) { file = f } in
              let none_left : n - c ≡ 0 = omega (arith, all) in
              (
                s1,
                loop-more read_sector fat fuel n c s f (λ z. omega (arith, z, all, pos)) e
                      (omega (arith, room, ends, d.small, all)) run
                    ∙ ap (λ x. read_loop read_sector fat fuel x s1) none_left
                    ∙ loop-end read_sector fat fuel s1,
                finished f (ap (λ (p : Bool × FileControlBlock). p.1.bytesread) (sym run) ∙ keeps.0)
                    (ap (λ (p : Bool × FileControlBlock). p.1.filesize) (sym run) ∙ keeps.1),
              )
          go (false, f) run = (
            record (moved c s) { file = f },
            loop-stop read_sector fat fuel n c s f (λ z. omega (arith, z, all, pos)) e
                (omega (arith, room, ends, d.small, all)) run,
            finished f (ap (λ (p : Bool × FileControlBlock). p.1.bytesread) (sym run) ∙ keeps.0)
                (ap (λ (p : Bool × FileControlBlock). p.1.filesize) (sym run) ∙ keeps.1),
          )

      -- Before the end of the file.
      round-more :
          (fuel n c : ℕ) (s : ReadState)
          → IsOpen s.file
          → 0 < c
          → c ≤ n
          → s.file.bytesread + n ≤ size
          → s.file.bytesread + c < size
          → size_of_round n s ≡ c
          → s.file.bytesread % bytes_per_sector + c ≡ bytes_per_sector
          → ((s1 : ReadState)
              → IsOpen s1.file
              → s1.file.bytesread + (n - c) ≤ size
              → Goal fuel (n - c) s1)
          → Goal (suc fuel) n s
      round-more fuel n c s o pos le fits inside e room ih =
          let b = s.file.bytesread in
          let i = b / bytes_per_sector in
          let sum : u32 (b + c) ≡ b + c = omega (arith, d.small) in
          let next : (b + c) / bytes_per_sector ≡ i + 1 = omega (arith, room) in
          let more : (i + 1) * bytes_per_sector < size = omega (arith, room) in
          let at : (moved c s).file.cur_cluster ≡ clusters i = o.cluster_eq (omega (arith, pos)) in
          let linked : get_next_cluster fat (moved c s).file.cur_cluster ≡ clusters (i + 1) =
            ap (get_next_cluster fat) at ∙ d.linked i more in
          let run =
            load_next-some read_sector fat (moved c s).file (clusters (i + 1)) (sectors (i + 1))
              linked (d.from (i + 1) more) (d.to (i + 1) more) (d.readable (i + 1) more) in
          let f : FileControlBlock = record (moved c s).file {
            cur_cluster = clusters (i + 1);
            buffer = sectors (i + 1);
          } in
          let s1 : ReadState = record (moved c s) { file = f } in
          let here : i + 1 ≡ u32 (b + c) / bytes_per_sector =
            sym (ap (λ x. x / bytes_per_sector) sum ∙ next) in
          let opened : IsOpen f = record {
            size_eq = o.size_eq;
            within = omega (arith, sum);
            cluster_eq = λ lt. ap clusters here;
            buffer_eq = λ lt. ap sectors here;
          } in
          let (s', rest, done) = ih s1 opened (omega (arith, sum, fits, le)) in
          (
            s',
            loop-more read_sector fat fuel n c s f (λ z. omega (arith, z, le, pos)) e
                  (omega (arith, room, sum)) run
                ∙ rest,
            ReadDone-then c n s s1 s' pos le fits d.small (omega (arith, room)) o refl sum refl
                done,
          )

      round-inside :
          (fuel n c : ℕ) (s : ReadState)
          → IsOpen s.file
          → 0 < c
          → c ≤ n
          → s.file.bytesread + n ≤ size
          → size_of_round n s ≡ c
          → s.file.bytesread % bytes_per_sector + c < bytes_per_sector
          → ((s1 : ReadState)
              → IsOpen s1.file
              → s1.file.bytesread + (n - c) ≤ size
              → Goal fuel (n - c) s1)
          → Goal (suc fuel) n s
      round-inside fuel n c s o pos le fits e room ih =
          let sum : u32 (s.file.bytesread + c) ≡ s.file.bytesread + c = omega (arith, d.small) in
          let (s', rest, done) =
            ih (moved c s) (IsOpen-inside s.file c o (omega (arith, le, fits)) d.small room)
              (omega (arith, sum, le, fits)) in
          (
            s',
            loop-inside read_sector fat fuel n c s (λ z. omega (arith, z, le, pos)) e
                  (λ z. omega (arith, z, sum, room, pos))
                ∙ rest,
            ReadDone-then c n s (moved c s) s' pos le fits d.small (omega (arith, room)) o refl sum
                refl done,
          )

      -- A round for each byte is enough, and the bytes are those of the file.
      pub read_loop-ReadDone :
          (fuel n : ℕ) (s : ReadState)
          → IsOpen s.file
          → n ≤ fuel
          → s.file.bytesread + n ≤ size
          → Goal fuel n s
      read_loop-ReadDone fuel zero s o le fits = (
        s,
        loop-end read_sector fat fuel s,
        record {
          count = omega arith;
          position = omega arith;
          still_open = o;
          bytes = λ j lt. absurd (omega (arith, lt));
          kept = λ a out. refl;
        },
      )
      read_loop-ReadDone zero (suc n) s o le fits = absurd (omega arith)
      read_loop-ReadDone (suc fuel) (suc n) s o le fits =
          let room = bytes_per_sector - s.file.bytesread % bytes_per_sector in
          let ih : (c : ℕ)
              → 0 < c
              → (s1 : ReadState) → IsOpen s1.file
              → s1.file.bytesread + (suc n - c) ≤ size
              → Goal fuel (suc n - c) s1 =
            λ c pos s1 o1 fits1. read_loop-ReadDone fuel (suc n - c) s1 o1 (omega arith) fits1 in
          elim (dec_lt (suc n) room) [
            | yes short ↦
                round-inside fuel (suc n) (suc n) s o (omega arith) (omega arith) fits
                  (ground arith) (omega (arith, short)) (ih (suc n) (omega arith))
            | no long ↦ elim (dec_lt (s.file.bytesread + room) size) [
              | yes inside ↦
                  round-more fuel (suc n) room s o (omega arith) (omega (arith, long)) fits inside
                    (ground (arith, long)) (omega arith) (ih room (omega arith))
              | no last ↦
                  round-last fuel (suc n) room s o (omega arith) (omega (arith, long, last))
                    (omega (arith, long, last)) (ground (arith, long)) (omega arith)
            ]
          ]
