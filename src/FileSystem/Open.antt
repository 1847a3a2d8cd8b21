-- ===== src/FileSystem/Open.antt =====
-- FsOpenFile of mylysos/fatfs.c, on a name and a directory.
use mathlib.Core.List.{map}
use mathlib.Core.Path.{subst}
use mylysos.Base.{
  ℕ, ◌+◌, ◌≡◌, ◌≢◌, ◌⊎◌, inl, inr, refl, sym, ap, ◌∙◌, true, false, Option, none, some, List, arith,
  not, ◌==◌, update, update_self, update_ne, Bool-cases, Run, ok, bind-ok, u16, pure,
}
use mylysos.Memory.{MemBlkManager, allocate_non_cached_memory, free_non_cached_memory}
use mylysos.Memory.Laws.{Restored}
use mylysos.Strings.{strlen, strupr, to_upper}
use mylysos.FileSystem.{FileControlBlock, cluster_offset}
use mylysos.FileSystem.Directory.{
  DirectoryEntry, Volume, of_callback, list_entries, get_file_list, close_file,
  sizeof_file_control_block, fresh_block, load_first, open_named, open_file,
}
use mylysos.FileSystem.Lookup.{Lookup, taken, blocks_behind}

module _ (read_sector : ℕ → Option (ℕ → ℕ)) where
  load_first-closed :
      (h : ℕ) (v : Volume) (pool : MemBlkManager)
      → free_non_cached_memory h v.pool ≡ ok tt pool
      → ((v.block h).found ≡ false)
        ⊎ (read_sector (u16 ((v.block h).cur_cluster + cluster_offset)) ≡ none)
      → load_first read_sector h v ≡ ok 0 (record v { pool = pool })
  unfolding load_first close_file
  load_first-closed h v pool freed why =
      let closed : close_file h v ≡ ok true (record v { pool = pool }) =
        rw (close_file, freed) refl in
      let failed = bind-ok (close_file h) (λ _. pure {A = ℕ} 0) v true _ closed in
      elim why [
        | inl f ↦ rw (load_first, ap not f) failed
        | inr n ↦ elim (Bool-cases (v.block h).found) [
          | inl f ↦ rw (load_first, ap not f, n) failed
          | inr f ↦ rw (load_first, ap not f) failed
        ]
      ]

  load_first-read :
      (h : ℕ) (v : Volume) (sector : ℕ → ℕ)
      → (v.block h).found ≡ true
      → read_sector (u16 ((v.block h).cur_cluster + cluster_offset)) ≡ some sector
      → load_first read_sector h v
        ≡ ok h (record v { block = update v.block h (record (v.block h) { buffer = sector }) })
  unfolding load_first
  load_first-read h v sector f r = rw (load_first, ap not f, r) refl

  pub open_named-listed :
      (fuel info filename attribute h : ℕ) (v v' : Volume) (pool : MemBlkManager)
      → allocate_non_cached_memory sizeof_file_control_block v.pool ≡ ok h pool
      → h ≢ 0
      → list_entries (of_callback fuel) info v.dir_entries h (record v {
        pool = pool;
        block = update v.block h (fresh_block filename attribute (v.block h));
      })
        ≡ ok h v'
      → open_named read_sector fuel info filename attribute v ≡ load_first read_sector h v'
  unfolding open_named get_file_list
  open_named-listed fuel info filename attribute h v v' pool run n listed =
      let test : (h == 0) ≡ false = ground (arith, n) in
      rw (open_named, run, test)
        (bind-ok (get_file_list (of_callback fuel) info h) (λ _. load_first read_sector h)
          (record v {
            pool = pool;
            block = update v.block h (fresh_block filename attribute (v.block h));
          })
          h v' listed)

  pub open_named-refused :
      (fuel info filename attribute : ℕ) (v : Volume) (pool : MemBlkManager)
      → allocate_non_cached_memory sizeof_file_control_block v.pool ≡ ok 0 pool
      → open_named read_sector fuel info filename attribute v ≡ ok 0 (record v { pool = pool })
  unfolding open_named
  open_named-refused fuel info filename attribute v pool run = rw (open_named, run) refl

  pub open_file-raised :
      (length_fuel fuel info filename attribute n : ℕ) (v : Volume) (m : ℕ → ℕ)
      → filename ≢ 0
      → strlen length_fuel v.memory filename 0 ≡ some n
      → n ≢ 0
      → strupr length_fuel v.memory filename ≡ some m
      → open_file read_sector length_fuel fuel info filename attribute v
        ≡ open_named read_sector fuel info filename attribute (record v { memory = m })
  unfolding open_file
  open_file-raised length_fuel fuel info filename attribute n v m f l z u =
      let test : (filename == 0) ≡ false = ground (arith, f) in
      let some_name : (n == 0) ≡ false = ground (arith, z) in
      rw (open_file, test, l, some_name, u) refl

  -- What FsOpenFile gives for a name, by the first entry that has its capitals.
  pub data Opened (v : Volume) (cs : List ℕ) (filename attribute : ℕ) : Run Volume ℕ → Type 0 where
    refused :
        (v' : Volume)
        → allocate_non_cached_memory sizeof_file_control_block v.pool ≡ ok 0 v'.pool
        → Opened v cs filename attribute (ok 0 v')
    absent :
        (v' : Volume)
        → Lookup (map to_upper cs) v.dir_entries none
        → Restored v.pool v'.pool
        → Opened v cs filename attribute (ok 0 v')
    unreadable :
        (v' : Volume) (e : DirectoryEntry)
        → Lookup (map to_upper cs) v.dir_entries (some e)
        → read_sector (u16 (e.cluster + cluster_offset)) ≡ none
        → Restored v.pool v'.pool
        → Opened v cs filename attribute (ok 0 v')
    opened :
        (v' : Volume) (h : ℕ) (e : DirectoryEntry) (sector : ℕ → ℕ)
        → Lookup (map to_upper cs) v.dir_entries (some e)
        → read_sector (u16 (e.cluster + cluster_offset)) ≡ some sector
        → h ≢ 0
        → allocate_non_cached_memory sizeof_file_control_block v.pool ≡ ok h v'.pool
        → v'.block h ≡ record {
          found = true;
          pt_filename = filename;
          attribute = attribute;
          filesize = e.filesize;
          cur_cluster = e.cluster;
          bytesread = 0;
          buffer = sector;
        }
        → ((b : ℕ) → b ≢ h → v'.block b ≡ v.block b)
        → Opened v cs filename attribute (ok h v')

  module _ (v : Volume) (cs : List ℕ) (filename attribute h : ℕ) (pool pool' : MemBlkManager)
      (m : ℕ → ℕ) (n : h ≢ 0)
      (allocated : allocate_non_cached_memory sizeof_file_control_block v.pool ≡ ok h pool)
      (freed : free_non_cached_memory h pool ≡ ok tt pool') (restored : Restored v.pool pool') where
    -- The blocks and the state behind the search.
    abbrev pub blocks : ℕ → FileControlBlock
    blocks = update v.block h (fresh_block filename attribute (v.block h))

    abbrev pub searched : Option DirectoryEntry → Volume
    searched o = record v { memory = m; pool = pool; block = blocks_behind o blocks h }

    pub fresh_self : blocks h ≡ fresh_block filename attribute (v.block h)
    fresh_self = update_self v.block h _

    pub Opened-loaded :
        (o : Option DirectoryEntry)
        → Lookup (map to_upper cs) v.dir_entries o
        → Opened v cs filename attribute (load_first read_sector h (searched o))
    unfolding fresh_block
    Opened-loaded none l =
        subst (Opened v cs filename attribute)
          (sym (
            load_first-closed h (searched none) pool' freed
              (inl (ap (λ (f : FileControlBlock). f.found) fresh_self))))
          (absent _ l restored)
    Opened-loaded (some e) l = go _ refl
      where
        first : ℕ
        first = u16 (e.cluster + cluster_offset)

        got :
            update blocks h (taken e (blocks h)) h
            ≡ taken e (fresh_block filename attribute (v.block h))
        got = update_self blocks h _ ∙ ap (taken e) fresh_self

        same_sector :
            read_sector (u16 (((searched (some e)).block h).cur_cluster + cluster_offset))
            ≡ read_sector first
        same_sector =
            ap (λ (f : FileControlBlock). read_sector (u16 (f.cur_cluster + cluster_offset))) got

        go :
            (r : Option (ℕ → ℕ))
            → read_sector first ≡ r
            → Opened v cs filename attribute (load_first read_sector h (searched (some e)))
        go none q =
            subst (Opened v cs filename attribute)
              (sym (load_first-closed h (searched (some e)) pool' freed (inr (same_sector ∙ q))))
              (unreadable _ e l q restored)
        go (some sector) q =
            subst (Opened v cs filename attribute)
              (sym (
                load_first-read h (searched (some e)) sector
                  (ap (λ (f : FileControlBlock). f.found) got) (same_sector ∙ q)))
              (opened _ h e sector l q n allocated
                (update_self (update blocks h (taken e (blocks h))) h _
                  ∙ ap (λ (f : FileControlBlock). record f { buffer = sector }) got)
                (λ b ne.
                  update_ne (update blocks h (taken e (blocks h))) h _ b ne
                  ∙ update_ne blocks h _ b ne
                  ∙ update_ne v.block h _ b ne))
