-- ===== src/Mover/Open.antt =====
-- The data mover of src/mthvac_data_mover.cpp leaves the descriptors that the server of
-- src/mthvac_comm.cpp has open alone.
use mt_hvac.Base.{◌≡◌, refl, ◌∙◌, Bool, true, false, List, [], ◌∷◌, Text, ℤ}
use mt_hvac.Posix.{Posix, IsFdTable}
use mt_hvac.Server.{State}
use mt_hvac.Mover.{enter, copy_one, copy_all, drain}

module _ (P : Posix) (F : IsFdTable P) (fd : ℤ) where
  file-enter :
      (copied : Bool) (path target : Text) (fs : P.Fs) (s : State P)
      → P.file fd (enter P copied path target fs s).fs ≡ P.file fd fs
  unfolding enter
  file-enter true path target fs s = refl
  file-enter false path target fs s = refl

  file-copy_one :
      (nvmepath path : Text) (s : State P)
      → P.file fd (copy_one P nvmepath path s).fs ≡ P.file fd s.fs
  unfolding copy_one
  file-copy_one nvmepath path s =
      file-enter _ path _ _ s ∙ F.file-copy path _ fd _ ∙ F.file-mkdtemp nvmepath fd s.fs

  file-copy_all :
      (nvmepath : Text) (paths : List Text) (s : State P)
      → P.file fd (copy_all P nvmepath paths s).fs ≡ P.file fd s.fs
  unfolding copy_all
  file-copy_all nvmepath [] s = refl
  file-copy_all nvmepath (path ∷ rest) s =
      file-copy_all nvmepath rest (copy_one P nvmepath path s) ∙ file-copy_one nvmepath path s

  -- A round of the mover.
  pub file-drain :
      (nvmepath : Text) (s : State P) → P.file fd (drain P nvmepath s).fs ≡ P.file fd s.fs
  unfolding drain
  file-drain nvmepath s = file-copy_all nvmepath s.data_queue (record s { data_queue = [] })
