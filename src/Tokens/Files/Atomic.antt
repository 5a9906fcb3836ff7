-- ===== src/Tokens/Files/Atomic.antt =====
-- A write replaces a file as a whole or leaves it alone, wherever it fails.
use rune_admin.Prelude.{
  String, ◌≡◌, ◌≢◌, refl, true, false, Option, none, some, arith, ◌↔◌, ap, ◌==◌, eq_iff,
  if◌then◌else◌,
}
use rune_admin.Dict.{put, remove, get-put, get-remove}
use rune_admin.Tokens.Files.{
  FileState, missing, content, Disk, Fault, in_mkdir, in_create, in_encode, in_flush, in_close,
  in_rename, read_file, atomic_write_yaml,
}

read_file-put :
    (disk : Disk) (p q : String) (f : FileState)
    → read_file (put disk p f) q ≡ (if p == q then f else read_file disk q)
unfolding read_file
read_file-put disk p q f = ground (arith, get-put disk p q f)

read_file-remove :
    (disk : Disk) (p q : String)
    → read_file (remove disk p) q ≡ (if p == q then missing else read_file disk q)
unfolding read_file
read_file-remove disk p q = ground (arith, get-remove disk p q)

-- A temporary file that is taken away again shows nowhere.
read_file-tmp :
    (disk : Disk) (tmp q : String) (f : FileState)
    → read_file (remove (put disk tmp f) tmp) q ≡ (if tmp == q then missing else read_file disk q)
read_file-tmp disk tmp q f =
    ground (arith, read_file-remove (put disk tmp f) tmp q, read_file-put disk tmp q f)

module _ (tmp path text : String) (disk : Disk) (apart : tmp ≢ path) (q : String) where
  read_file-success :
      let disk' = (atomic_write_yaml none tmp path text disk).0 in
      read_file disk' q
      ≡ (if path == q then content text else if tmp == q then missing else read_file disk q)
  unfolding atomic_write_yaml
  read_file-success =
      let disk₁ = remove (put disk tmp (content text)) tmp in
      ground
        (arith, read_file-put disk₁ path q (content text), read_file-tmp disk tmp q (content text))

  read_file-failure :
      (fault : Fault)
      → let (disk', done) = atomic_write_yaml (some fault) tmp path text disk in
        (done ≡ false)
        × (tmp ≢ q → read_file disk' q ≡ read_file disk q)
        × (fault ≢ in_rename → read_file disk tmp ≡ missing → read_file disk' tmp ≡ missing)
  unfolding atomic_write_yaml
  read_file-failure in_mkdir = (refl, (λ _. refl), (λ _ h. h))
  read_file-failure in_create = (refl, (λ _. refl), (λ _ h. h))
  read_file-failure (in_encode part) = (
    refl,
    (λ h. ground (arith, read_file-tmp disk tmp q (content part), eq_iff tmp q)),
    (λ _ h. ground (arith, read_file-tmp disk tmp tmp (content part), eq_iff tmp tmp)),
  )
  read_file-failure (in_flush part) = (
    refl,
    (λ h. ground (arith, read_file-tmp disk tmp q (content part), eq_iff tmp q)),
    (λ _ h. ground (arith, read_file-tmp disk tmp tmp (content part), eq_iff tmp tmp)),
  )
  read_file-failure in_close = (
    refl,
    (λ h. ground (arith, read_file-tmp disk tmp q (content text), eq_iff tmp q)),
    (λ _ h. ground (arith, read_file-tmp disk tmp tmp (content text), eq_iff tmp tmp)),
  )
  read_file-failure in_rename = (
    refl,
    (λ h. ground (arith, read_file-put disk tmp q (content text), eq_iff tmp q)),
    (λ h _. absurd (h refl)),
  )

success_flag :
    (tmp path text : String) (disk : Disk) → (atomic_write_yaml none tmp path text disk).1 ≡ true
unfolding atomic_write_yaml
success_flag tmp path text disk = refl

-- A write to a path other than its temporary one either reports success, or has a fault. On success the
-- file has the new text, and the temporary file is gone; on a fault the file is what it was. Every
-- third file is left alone. After a fault in a step other than the last, a temporary file that was
-- not there before is gone.
pub atomic_write_yaml_lem :
    (fault : Option Fault) (tmp path text : String) (disk : Disk)
    → tmp ≢ path
    → let (disk', done) = atomic_write_yaml fault tmp path text disk in
      ((done ≡ true) ↔ (fault ≡ none))
      × (read_file disk' path ≡ (if done then content text else read_file disk path))
      × ((other : String)
          → path ≢ other
          → tmp ≢ other
          → read_file disk' other ≡ read_file disk other)
      × (fault ≢ some in_rename → read_file disk tmp ≡ missing → read_file disk' tmp ≡ missing)
atomic_write_yaml_lem none tmp path text disk apart = (
  ((λ _. refl), (λ _. success_flag tmp path text disk)),
  rw (success_flag tmp path text disk)
      (ground (arith, read_file-success tmp path text disk apart path, eq_iff path path)),
  (λ other a b. ground (
    arith,
    read_file-success tmp path text disk apart other,
    eq_iff path other,
    eq_iff tmp other,
  )),
  (λ _ h.
      ground
        (arith, read_file-success tmp path text disk apart tmp, eq_iff path tmp, eq_iff tmp tmp)),
)
atomic_write_yaml_lem (some fault) tmp path text disk apart =
    let done = (read_file-failure tmp path text disk apart path fault).0 in
    (
      ((λ h. cc), (λ h. cc)),
      rw done ((read_file-failure tmp path text disk apart path fault).1 apart),
      (λ other a b. (read_file-failure tmp path text disk apart other fault).1 b),
      (λ ne h. (read_file-failure tmp path text disk apart path fault).2 (λ e. ne (ap some e)) h),
    )
