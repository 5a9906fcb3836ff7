-- ===== src/Examples/Disk.antt =====
-- A persist of the store with one token, and a start on its files.
use rune_admin.Prelude.{
  String, ◌≡◌, ◌≢◌, ◌↔◌, refl, true, false, none, some, if◌then◌else◌, inl, inr,
}
use rune_admin.Dict.{get, put, empty}
use rune_admin.Tokens.Role.{Role}
use rune_admin.Tokens.Store.{new_store}
use rune_admin.Tokens.Store.Issue.{add_token}
use rune_admin.Tokens.Store.Invariant.OfRoles.{default_store, default_store-roles}
use rune_admin.Tokens.Files.{
  Disk, content, missing, read_file, in_flush, in_rename, atomic_write_yaml, Writes, do_persist,
  is_zero, load_from_files,
}
use rune_admin.Tokens.Files.Atomic.{atomic_write_yaml_lem}
use rune_admin.Tokens.Files.Restart.{AreGood, load_from_files-do_persist}
use rune_admin.Examples.Data.{yaml, bob_store, bob_store-IsConsistent}

abbrev old_disk : Disk
old_disk = put empty "roles.yml" (content "old")

-- The flush fails after a part was written.
atomic_write_yaml_lem_example :
    let (disk', done) =
      atomic_write_yaml (some (in_flush "ne")) ".roles-1" "roles.yml" "new" old_disk in
    ((done ≡ true) ↔ (some (in_flush "ne") ≡ none))
    × (read_file disk' "roles.yml"
        ≡ (if done then content "new" else read_file old_disk "roles.yml"))
    × ((other : String)
        → "roles.yml" ≢ other
        → ".roles-1" ≢ other
        → read_file disk' other ≡ read_file old_disk other)
    × (some (in_flush "ne") ≢ some in_rename
        → read_file old_disk ".roles-1" ≡ missing
        → read_file disk' ".roles-1" ≡ missing)
atomic_write_yaml_lem_example =
    atomic_write_yaml_lem (some (in_flush "ne")) ".roles-1" "roles.yml" "new" old_disk (λ e. cc)

abbrev writes : Writes
writes = record { roles_fault = none; roles_tmp = ".r"; tokens_fault = none; tokens_tmp = ".t" }

paths : (bob_store.roles_path ≡ "roles.yml") × (bob_store.tokens_path ≡ "tokens.yml")
unfolding add_token get put empty
paths = (refl, refl)

abbrev Apart : String → String → Type 0
Apart s t = s ≢ t

Apart-paths :
    Apart "roles.yml" "tokens.yml"
    × Apart ".r" "roles.yml"
    × Apart ".t" "tokens.yml"
    × Apart ".t" "roles.yml"
Apart-paths = ((λ e. cc), (λ e. cc), (λ e. cc), (λ e. cc))

writes-AreGood : AreGood writes bob_store
writes-AreGood = record {
  roles_written = refl;
  tokens_written = refl;
  apart = rw (paths.0, paths.1) Apart-paths.0;
  roles_tmp_apart = rw paths.0 Apart-paths.1;
  tokens_tmp_apart = rw paths.1 Apart-paths.2;
  roles_kept = rw paths.0 Apart-paths.3;
}

same_roles : bob_store.roles ≡ default_store.roles
unfolding add_token get put empty
same_roles = refl

limits : (n : String) (r : Role) → get bob_store.roles n ≡ some r → is_zero r.top_k ≡ false
limits n r h = elim (default_store-roles n {r = r} (rw (← same_roles) h)) [
  | inl (_, e) ↦ rw e refl
  | inr (_, e) ↦ rw e refl
]

load_from_files-do_persist_example :
    let (t, failed) =
      load_from_files yaml
        (do_persist yaml writes bob_store old_disk)
        bob_store.roles_path
        bob_store.tokens_path
        new_store in
    (failed ≡ none)
    × ((n : String) → get t.roles n ≡ get bob_store.roles n)
    × ((x : String) → get t.tokens x ≡ get bob_store.tokens x)
    × ((u : String) → get t.tokens_by_user u ≡ get bob_store.tokens_by_user u)
load_from_files-do_persist_example =
    load_from_files-do_persist yaml writes bob_store old_disk bob_store-IsConsistent limits
      writes-AreGood
