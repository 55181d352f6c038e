-- ===== src/Run/Write.antt =====
-- internal/collector/persist.go: `writeFileAtomic`, call by call.
-- What each system call does is given by `Calls`; a write that fails may have written a part.
use pi_monitor.Prelude.{
  ℕ, ◌≡◌, refl, Bool, true, false, List, [], ◌∷◌, Option, none, some, take, All, if◌then◌else◌,
}
use pi_monitor.Prelude.Bytes.{Bytes}

-- Which calls succeed, and how much a failing write leaves.
pub record Calls : Type 0 where
  pub mkdir : Bool
  pub create : Bool
  pub write : Bool
  pub partial : ℕ
  pub sync : Bool
  pub close : Bool
  pub rename : Bool
  pub remove : Bool

-- The file and the temporary file beside it.
pub record Folder : Type 0 where
  pub target : Option Bytes
  pub temp : Option Bytes

-- The folders that a write goes through, the one it leaves, and whether it succeeds.
abbrev pub Trace : Type 0
Trace = List Folder × Folder × Bool

abbrev pub seen : Folder → Trace → Trace
seen f (folders, final, ok) = (f ∷ folders, final, ok)

-- After an error: the temporary file is closed and removed.
unfoldable pub give_up : Calls → Folder → Trace
give_up c f = ([], if c.remove then record f { temp = none } else f, false)

-- The temporary file, with whatever it holds, takes the place of the file.
unfoldable pub rename_temp : Calls → Folder → Trace
rename_temp c f =
    if c.rename then ([], record { target = f.temp; temp = none }, true) else give_up c f

unfoldable pub sync_temp : Calls → Folder → Trace
sync_temp c f = if c.sync then (if c.close then rename_temp c f else give_up c f) else give_up c f

unfoldable pub write_temp : Calls → Bytes → Folder → Trace
write_temp c content f =
    if c.write
    then (let f' : Folder = record f { temp = some content } in seen f' (sync_temp c f'))
    else (let f' : Folder = record f { temp = some (take c.partial content) } in
        seen f' (give_up c f'))

unfoldable pub write_file_atomic : Calls → Bytes → Folder → Trace
write_file_atomic c content f =
    if c.mkdir
    then (if c.create
        then (let f' : Folder = record f { temp = some [] } in seen f' (write_temp c content f'))
        else ([], f, false))
    else ([], f, false)

-- The file is the one before the write.
abbrev pub Unchanged : Folder → Folder → Type 0
Unchanged old f = f.target ≡ old.target

abbrev pub Left : Bytes → Folder → Folder → Bool → Type 0
Left content old f true = (f.target ≡ some content) × (f.temp ≡ none)
Left content old f false = Unchanged old f

-- Up to its end a write leaves the file as it was; it succeeds with the file replaced in full.
abbrev pub IsAtomic : Bytes → Folder → Trace → Type 0
IsAtomic content old (folders, final, ok) = All (Unchanged old) folders × Left content old final ok

either-IsAtomic :
    (b : Bool) (content : Bytes) (old : Folder) (t u : Trace)
    → IsAtomic content old t
    → IsAtomic content old u
    → IsAtomic content old (if b then t else u)
either-IsAtomic true content old t u h k = h
either-IsAtomic false content old t u h k = k

seen-IsAtomic :
    (content : Bytes) (old f : Folder) (t : Trace)
    → Unchanged old f
    → IsAtomic content old t
    → IsAtomic content old (seen f t)
seen-IsAtomic content old f (folders, final, ok) h a = ((h, a.0), a.1)

give_up-IsAtomic :
    (c : Calls) (content : Bytes) (old f : Folder)
    → Unchanged old f
    → IsAtomic content old (give_up c f)
unfolding give_up
give_up-IsAtomic c content old f h = (tt, by_test c.remove)
  where
    by_test : (b : Bool) → Unchanged old (if b then record f { temp = none } else f)
    by_test true = h
    by_test false = h

sync_temp-IsAtomic :
    (c : Calls) (content : Bytes) (old f : Folder)
    → Unchanged old f
    → f.temp ≡ some content
    → IsAtomic content old (sync_temp c f)
unfolding sync_temp rename_temp
sync_temp-IsAtomic c content old f h written =
    let stop = give_up-IsAtomic c content old f h in
    let renamed = either-IsAtomic c.rename content old _ (give_up c f) (tt, (written, refl)) stop in
    either-IsAtomic c.sync content old _ _ (either-IsAtomic c.close content old _ _ renamed stop)
      stop

write_temp-IsAtomic :
    (c : Calls) (content : Bytes) (old f : Folder)
    → Unchanged old f
    → IsAtomic content old (write_temp c content f)
unfolding write_temp
write_temp-IsAtomic c content old f h =
    let full : Folder = record f { temp = some content } in
    let cut : Folder = record f { temp = some (take c.partial content) } in
    either-IsAtomic c.write content old _ _
      (seen-IsAtomic content old full _ h (sync_temp-IsAtomic c content old full h refl))
      (seen-IsAtomic content old cut _ h (give_up-IsAtomic c content old cut h))

-- Whichever system calls fail, the history file is never partly written: in every state of the folder
-- before the end of the write it is the old file, and at the end it holds the new content in full,
-- with no temporary file, where the write succeeds, and is the old file where it fails.
pub write_file_atomic-IsAtomic :
    (c : Calls) (content : Bytes) (f : Folder) → IsAtomic content f (write_file_atomic c content f)
unfolding write_file_atomic
write_file_atomic-IsAtomic c content f =
    let started : Folder = record f { temp = some [] } in
    let wrote =
      seen-IsAtomic content f started _ refl (write_temp-IsAtomic c content f started refl) in
    either-IsAtomic c.mkdir content f _ _ (either-IsAtomic c.create content f _ _ wrote (tt, refl))
      (tt, refl)
