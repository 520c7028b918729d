-- ===== src/Disk/Frame.antt =====
-- What each operating system call leaves alone, whatever its outcome.
use morfx.Base.{true, false, ◌≡◌, some, arith}
use morfx.Base.Bytes.{Bytes, beq, beq_refl}
use morfx.Disk.{World, stat, read_file, write_file, touch, rename, remove}

module _ (path q : Bytes) (w : World) where
  pub files-stat : (stat path w).1.files q ≡ w.files q
  unfolding stat
  files-stat = ground arith

  pub files-read_file : (read_file path w).1.files q ≡ w.files q
  unfolding read_file
  files-read_file = ground arith

  pub files-touch : (touch path w).1.files q ≡ w.files q
  unfolding touch
  files-touch = ground arith

  pub files-write_file :
      (content : Bytes) → beq path q ≡ false → (write_file path content w).1.files q ≡ w.files q
  unfolding write_file
  files-write_file content h = ground arith

  pub files-remove : beq path q ≡ false → (remove path w).1.files q ≡ w.files q
  unfolding remove
  files-remove h = ground arith

module _ (w : World) where
  pub rename-true :
      (source target content : Bytes)
      → w.files source ≡ some content
      → (rename source target w).0 ≡ true
      → (rename source target w).1.files target ≡ some content
  unfolding rename
  rename-true source target content h e = ground (arith, beq_refl target)

  pub rename-false :
      (source target q : Bytes)
      → (rename source target w).0 ≡ false
      → (rename source target w).1.files q ≡ w.files q
  unfolding rename
  rename-false source target q e = ground arith

  pub write_file-true :
      (path content : Bytes)
      → (write_file path content w).0 ≡ true
      → (write_file path content w).1.files path ≡ some content
  unfolding write_file
  write_file-true path content e = ground (arith, beq_refl path)
