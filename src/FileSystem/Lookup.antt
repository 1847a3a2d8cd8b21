-- ===== src/FileSystem/Lookup.antt =====
-- The search of FsOpenFile through the directory.
use mylysos.Base.{
  ℕ, ◌+◌, ◌<◌, ◌≡◌, ◌≢◌, ◌⊎◌, inl, inr, refl, ◌∙◌, Bool, true, false, Option, none, some, List, [],
  ◌∷◌, length, arith, ◌==◌, if◌then◌else◌, update, Bool-cases, Run, Cmd, pure, bind-ok, ok,
}
use mylysos.Strings.{strcmp}
use mylysos.Strings.Walks.{
  IsString, IsString-agree, Compared, same, different, strcmp-Compared_longer,
}
use mylysos.FileSystem.{FileControlBlock}
use mylysos.FileSystem.Directory.{
  DirectoryEntry, FileInfo, Volume, write_filename, file_info, is_unused, list_entries, of_callback,
}
use mylysos.FileSystem.Names.{dotted, length-dotted, Plain, write_filename-Named}

-- The first entry that is in use and has a name.
pub data Lookup (cs : List ℕ) : List DirectoryEntry → Option DirectoryEntry → Type 0 where
  no_entry : Lookup cs [] none
  unused :
      {o : Option DirectoryEntry} (e : DirectoryEntry) (es : List DirectoryEntry)
      → is_unused e ≡ true
      → Lookup cs es o
      → Lookup cs (e ∷ es) o
  other :
      {o : Option DirectoryEntry} (e : DirectoryEntry) (es : List DirectoryEntry)
      → is_unused e ≡ false
      → dotted e ≢ cs
      → Lookup cs es o
      → Lookup cs (e ∷ es) o
  here :
      (e : DirectoryEntry) (es : List DirectoryEntry)
      → is_unused e ≡ false
      → dotted e ≡ cs
      → Lookup cs (e ∷ es) (some e)

-- The entries are made of characters.
pub data AllPlain : List DirectoryEntry → Type 0 where
  none_plain : AllPlain []
  plain :
      (e : DirectoryEntry) (es : List DirectoryEntry)
      → Plain e.filename
      → Plain e.extension
      → AllPlain es
      → AllPlain (e ∷ es)

-- What the callback writes to the block of a file that it has found.
abbrev pub taken : DirectoryEntry → FileControlBlock → FileControlBlock
taken e f = record f { cur_cluster = e.cluster; filesize = e.filesize; found = true }

abbrev pub blocks_behind :
    Option DirectoryEntry → (ℕ → FileControlBlock) → (handle : ℕ) → ℕ → FileControlBlock
blocks_behind none block handle = block
blocks_behind (some e) block handle = update block handle (taken e (block handle))

pub list_entries-answered :
    {C : Type 0} (callback : FileInfo → C → Cmd Volume (Bool × C)) (info : ℕ) (e : DirectoryEntry)
    (es : List DirectoryEntry) (c : C) (v v' : Volume) (a : Bool × C)
    → is_unused e ≡ false
    → callback (file_info e info) c (record v { memory = write_filename e info v.memory }) ≡ ok a v'
    → list_entries callback info (e ∷ es) c v
      ≡ (if a.0 then list_entries callback info es a.1 else pure a.1) v'
unfolding list_entries
list_entries-answered callback info e es c v v' a q run = rw q (
    bind-ok (callback (file_info e info) c)
      (λ answer. if answer.0 then list_entries callback info es answer.1 else pure answer.1)
      (record v { memory = write_filename e info v.memory }) a v' run)

module _ (fuel info handle : ℕ) (cs : List ℕ) (enough : 12 < fuel) where
  callback-found :
      (e : DirectoryEntry) (v : Volume)
      → strcmp fuel v.memory info (v.block handle).pt_filename ≡ some 0
      → of_callback fuel (file_info e info) handle v
        ≡ ok (false, handle) (record v { block = update v.block handle (taken e (v.block handle)) })
  unfolding of_callback
  callback-found e v run = rw (of_callback, run) refl

  callback-passed :
      (e : DirectoryEntry) (v : Volume) (r : ℕ)
      → strcmp fuel v.memory info (v.block handle).pt_filename ≡ some r
      → r ≢ 0
      → of_callback fuel (file_info e info) handle v ≡ ok (true, handle) v
  unfolding of_callback
  callback-passed e v r run n =
      let test : (r == 0) ≡ false = ground (arith, n) in rw (of_callback, run, test) refl

  -- The two outcomes of the callback.
  of_callback-cases :
      (e : DirectoryEntry) (v : Volume)
      → IsString v.memory info (dotted e)
      → length (dotted e) < fuel
      → IsString v.memory (v.block handle).pt_filename cs
      → ((dotted e ≡ cs)
          × (of_callback fuel (file_info e info) handle v
              ≡ ok
                  (false, handle)
                  (record v { block = update v.block handle (taken e (v.block handle)) })))
        ⊎ ((dotted e ≢ cs) × (of_callback fuel (file_info e info) handle v ≡ ok (true, handle) v))
  of_callback-cases e v w short x = go _ refl (
      strcmp-Compared_longer fuel v.memory info (v.block handle).pt_filename (dotted e) cs short w
        x)
    where
      go :
          (o : Option ℕ)
          → strcmp fuel v.memory info (v.block handle).pt_filename ≡ o
          → Compared (dotted e) cs o
          → ((dotted e ≡ cs)
              × (of_callback fuel (file_info e info) handle v
                  ≡ ok
                      (false, handle)
                      (record v { block = update v.block handle (taken e (v.block handle)) })))
            ⊎ ((dotted e ≢ cs)
                × (of_callback fuel (file_info e info) handle v ≡ ok (true, handle) v))
      go _ run (same q) = inl (q, callback-found e v run)
      go _ run (different r n d) = inr (d, callback-passed e v r run n)

  -- What the listing does: the first entry with the name is in the block, if there is one.
  pub record Listed (v : Volume) (es : List DirectoryEntry) (run : Run Volume ℕ) : Type 0 where
    pub entry : Option DirectoryEntry
    pub looked_up : Lookup cs es entry
    pub memory_behind : ℕ → ℕ
    pub others : (a : ℕ) → (a < info) ⊎ (info + 12 < a) → memory_behind a ≡ v.memory a
    pub returned :
        run
        ≡ ok handle
            (record v { memory = memory_behind; block = blocks_behind entry v.block handle })

  -- The listing behind an entry that is in use and has another name.
  Listed-later :
      (v : Volume) (e : DirectoryEntry) (es : List DirectoryEntry) (m : ℕ → ℕ)
      (run run' : Run Volume ℕ)
      → is_unused e ≡ false
      → dotted e ≢ cs
      → ((a : ℕ) → (a < info) ⊎ (info + 12 < a) → m a ≡ v.memory a)
      → run' ≡ run
      → Listed (record v { memory = m }) es run
      → Listed v (e ∷ es) run'
  Listed-later v e es m run run' used d same_memory q l = record {
    entry = l.entry;
    looked_up = other e es used d l.looked_up;
    memory_behind = l.memory_behind;
    others = λ a h. l.others a h ∙ same_memory a h;
    returned = q ∙ l.returned;
  }

  pub list_entries-Listed :
      (v : Volume) (es : List DirectoryEntry)
      → AllPlain es
      → IsString v.memory (v.block handle).pt_filename cs
      → ((v.block handle).pt_filename + length cs < info)
        ⊎ (info + 12 < (v.block handle).pt_filename)
      → Listed v es (list_entries (of_callback fuel) info es handle v)
  unfolding list_entries
  list_entries-Listed v [] _ w apart = record {
    entry = none;
    looked_up = no_entry;
    memory_behind = v.memory;
    others = λ a h. refl;
    returned = refl;
  }
  list_entries-Listed v (e ∷ es) (plain _ _ pn px ps) w apart = elim (Bool-cases (is_unused e)) [
    | inl q ↦
        let l = list_entries-Listed v es ps w apart in
        rw q (record {
          entry = l.entry;
          looked_up = unused e es q l.looked_up;
          memory_behind = l.memory_behind;
          others = l.others;
          returned = l.returned;
        })
    | inr q ↦
        let m = write_filename e info v.memory in
        let v1 : Volume = record v { memory = m } in
        let named = write_filename-Named v.memory info e pn px in
        let w1 =
          IsString-agree v.memory m _ cs w
            (λ a le ge. named.others a (ground (arith, le, ge, apart))) in
        elim (of_callback-cases e v1 named.name (omega (arith, enough, length-dotted e)) w1) [
          | inl (eq, run) ↦ record {
            entry = some e;
            looked_up = here e es q eq;
            memory_behind = m;
            others = named.others;
            returned = list_entries-answered (of_callback fuel) info e es handle v _ _ q run;
          }
          | inr (d, run) ↦
              Listed-later v e es m _ _ q d named.others
                (list_entries-answered (of_callback fuel) info e es handle v _ _ q run)
                (list_entries-Listed v1 es ps w1 apart)
        ]
  ]
