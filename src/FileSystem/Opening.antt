-- ===== src/FileSystem/Opening.antt =====
-- FsOpenFile of mylysos/fatfs.c, from the name to the block of the file.
mod Tests
use mylysos.Base.{◌≤◌, inl, inr, refl, ◌∙◌, List, [], ◌∷◌, update, Run}
use mylysos.Memory.{MemBlkManager}
use mylysos.Memory.Alloc.{Allocated}
use mylysos.Memory.Laws.{Restored}
use mylysos.FileSystem.Directory.{of_callback, list_entries}
use mylysos.FileSystem.Lookup.{Listed}
use mylysos.FileSystem.Open.{searched}
