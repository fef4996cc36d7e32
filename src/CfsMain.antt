-- ===== src/CfsMain.antt =====
-- src/main.cpp: the start of the second file system. Making a directory and `fuse_main` are parameters.
use crunch_fs.Base.{ℕ, List, ◌∷◌, ◌++◌, take, Str, codes}
use crunch_fs.Disk.{Act, pure, ◌>>◌}
use crunch_fs.Passthrough.Layout.{Config}

-- `argv` without its second entry.
unfoldable pub fuse_argv : List Str → List Str
fuse_argv (program ∷ backing ∷ rest) = program ∷ rest
fuse_argv argv = argv

module _ (create_directories : Str → Act (Unit {0})) (fuse_main : List Str → Config → Act ℕ) where
  -- Fewer than three arguments are refused; the name of the backing directory has room for 4095 bytes.
  unfoldable pub main : List Str → Act ℕ
  main (program ∷ dir ∷ mount ∷ options) = do
    let backing = take 4095 dir
    create_directories backing
    create_directories (backing ++ codes "/.crunchfs/meta")
    create_directories (backing ++ codes "/.crunchfs/data")
    fuse_main (fuse_argv (program ∷ dir ∷ mount ∷ options)) (record { backing_dir = backing })
  main argv = pure 1
