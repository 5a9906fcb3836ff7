-- ===== src/Tokens/Files/Restart.antt =====
-- A persist followed by a start of the daemon.
use rune_admin.Prelude.{
  String, ◌≡◌, ◌≢◌, refl, sym, ◌∙◌, ap, true, false, none, some, List, [], ◌∷◌, map, arith,
  Option-cases, inl, inr,
}
use rune_admin.Dict.{Dict, get, keys, empty, get-empty, contains-keys}
use rune_admin.Dict.Assoc.{is_some}
use rune_admin.Sort.{sort_strings}
use rune_admin.Sort.Laws.{contains-sort_strings}
use rune_admin.Tokens.Role.{Role, default_roles, is_default_role_name}
use rune_admin.Tokens.Store.{Store, new_store}
use rune_admin.Tokens.Store.Invariant.{IsConsistent}
use rune_admin.Tokens.Files.{
  RoleEntry, ReadToken, read_back, Yaml, content, Disk, Writes, read_file, atomic_write_yaml,
  do_persist, roles_doc, tokens_doc, is_zero, load_roles, fill_defaults, load_tokens,
  load_from_files, load_roles_file, load_rest, load_tokens_file, is_missing,
}
use rune_admin.Tokens.Files.Atomic.{atomic_write_yaml_lem}
use rune_admin.Tokens.Files.RoundTrip.{
  get-roles_doc, get-load_roles, loaded_role-entry_of, fill_defaults-has, written_tokens-map,
  load_tokens-get, AreIndexed-tokens_of, has_name-tokens_of, has_text-tokens_of, tokens_of,
}

-- A start on two files that decode.
load_from_decoded :
    (yaml : Yaml) (disk : Disk) (p q : String) (s : Store) {text text' : String}
    {doc : Dict RoleEntry} {toks : List ReadToken}
    → read_file disk p ≡ content text
    → read_file disk q ≡ content text'
    → yaml.decode_roles text ≡ some doc
    → yaml.decode_tokens text' ≡ some toks
    → load_from_files yaml disk p q s ≡ (
      load_tokens toks (record s {
        roles_path = p;
        tokens_path = q;
        roles = fill_defaults default_roles (load_roles doc (keys doc) s.roles);
      }),
      none,
    )
unfolding load_from_files load_roles_file load_rest load_tokens_file is_missing
load_from_decoded yaml disk p q s a b c d = ground arith

roles-load_tokens : (toks : List ReadToken) (s : Store) → (load_tokens toks s).roles ≡ s.roles
unfolding load_tokens
roles-load_tokens [] s = refl
roles-load_tokens (e ∷ es) s = roles-load_tokens es _

-- The roles that a start makes of the written document.
module _ (s : Store) (c : IsConsistent s)
    (top : (n : String) (r : Role) → get s.roles n ≡ some r → is_zero r.top_k ≡ false) where
  loaded_roles :
      (doc : Dict RoleEntry)
      → ((n : String) → get doc n ≡ get (roles_doc s) n)
      → (n : String) → get (load_roles doc (keys doc) empty) n ≡ get s.roles n
  loaded_roles doc same n = elim (Option-cases (get s.roles n)) [
    | inl e ↦ ground (
      arith,
      same n,
      get-roles_doc s n,
      get-load_roles doc (keys doc) empty n,
      get-empty {V = Role} n,
    )
    | inr (r, e) ↦
        let (named, good) = c.well_formed n r e in
        ground (
          arith,
          same n,
          get-roles_doc s n,
          get-load_roles doc (keys doc) empty n,
          contains-keys doc n,
          loaded_role-entry_of n r named good (top n r e),
        )
  ]

  loaded_tokens :
      (t : Store)
      → ((x : String) → get t.tokens x ≡ none)
      → ((u : String) → get t.tokens_by_user u ≡ none)
      → let s' = load_tokens (map read_back (tokens_doc s)) t in
        ((x : String) → get s'.tokens x ≡ get s.tokens x)
        × ((u : String) → get s'.tokens_by_user u ≡ get s.tokens_by_user u)
  unfolding tokens_doc
  loaded_tokens t no_text no_user =
      let us = sort_strings (keys s.tokens_by_user) in
      let toks = tokens_of s.tokens_by_user us in
      let listed = AreIndexed-tokens_of s.tokens s.tokens_by_user c.indexed us in
      let got = load_tokens-get s.tokens s.tokens_by_user toks t listed in
      let in_us = λ (u : String).
        contains-sort_strings (keys s.tokens_by_user) u ∙ contains-keys s.tokens_by_user u in
      rw (written_tokens-map s.tokens_by_user us) (
        (λ x. got.0 x ∙ (elim (Option-cases (get s.tokens x)) [
          | inl e ↦ ground (arith, no_text x)
          | inr (tok, e) ↦
              let (texted, held) = c.indexed.by_text x tok e in
              ground (
                arith,
                has_text-tokens_of s.tokens s.tokens_by_user c.indexed us tok held,
                in_us tok.user,
              )
        ])),
        (λ u.
            got.1 u
            ∙ ground (
              arith,
              has_name-tokens_of s.tokens s.tokens_by_user c.indexed us u,
              in_us u,
              no_user u,
            )),
      )

-- Both writes of a persist succeed, to paths that are apart.
pub record AreGood (w : Writes) (s : Store) : Type 0 where
  pub roles_written : w.roles_fault ≡ none
  pub tokens_written : w.tokens_fault ≡ none
  pub apart : s.roles_path ≢ s.tokens_path
  pub roles_tmp_apart : w.roles_tmp ≢ s.roles_path
  pub tokens_tmp_apart : w.tokens_tmp ≢ s.tokens_path
  pub roles_kept : w.tokens_tmp ≢ s.roles_path

persisted :
    (yaml : Yaml) (w : Writes) (s : Store) (disk : Disk)
    → AreGood w s
    → let disk' = do_persist yaml w s disk in
      (read_file disk' s.roles_path ≡ content (yaml.encode_roles (roles_doc s)))
      × (read_file disk' s.tokens_path ≡ content (yaml.encode_tokens (tokens_doc s)))
unfolding do_persist
persisted yaml w s disk g =
    let text = yaml.encode_roles (roles_doc s) in
    let text' = yaml.encode_tokens (tokens_doc s) in
    let first =
      atomic_write_yaml_lem w.roles_fault w.roles_tmp s.roles_path text disk g.roles_tmp_apart in
    let disk₁ = (atomic_write_yaml w.roles_fault w.roles_tmp s.roles_path text disk).0 in
    let second =
      atomic_write_yaml_lem w.tokens_fault w.tokens_tmp s.tokens_path text' disk₁
        g.tokens_tmp_apart in
    (
      second.2 s.roles_path (λ e. g.apart (sym e)) g.roles_kept
          ∙ (first.1 ∙ rw (first.0.1 g.roles_written)),
      second.1 ∙ rw (second.0.1 g.tokens_written),
    )

default_admin : is_default_role_name "admin" ≡ true
unfolding is_default_role_name
default_admin = refl

default_member : is_default_role_name "member" ≡ true
unfolding is_default_role_name
default_member = refl

-- Take a consistent store in which no role has a result limit of 0. After a persist whose two writes
-- succeed, a start on the two files succeeds, and finds the same roles and the same tokens, by text
-- and by user.
pub load_from_files-do_persist :
    (yaml : Yaml) (w : Writes) (s : Store) (disk : Disk)
    → IsConsistent s
    → ((n : String) (r : Role) → get s.roles n ≡ some r → is_zero r.top_k ≡ false)
    → AreGood w s
    → let (t, failed) =
        load_from_files yaml (do_persist yaml w s disk) s.roles_path s.tokens_path new_store in
      (failed ≡ none)
      × ((n : String) → get t.roles n ≡ get s.roles n)
      × ((x : String) → get t.tokens x ≡ get s.tokens x)
      × ((u : String) → get t.tokens_by_user u ≡ get s.tokens_by_user u)
load_from_files-do_persist yaml w s disk c top g =
    let (doc, decoded, same) = yaml.decode-encode_roles (roles_doc s) in
    let (roles_there, tokens_there) = persisted yaml w s disk g in
    let disk' = do_persist yaml w s disk in
    let roles = load_roles doc (keys doc) empty in
    let same_roles = loaded_roles s c top doc same in
    let filled : fill_defaults default_roles roles ≡ roles =
      fill_defaults-has roles
        (ap is_some (same_roles "admin") ∙ c.has_defaults "admin" default_admin)
        (ap is_some (same_roles "member") ∙ c.has_defaults "member" default_member) in
    let t₀ = record new_store {
      roles_path = s.roles_path;
      tokens_path = s.tokens_path;
      roles = fill_defaults default_roles roles;
    } in
    let (texts, users) = loaded_tokens s c top t₀ get-empty get-empty in
    rw
      (load_from_decoded yaml disk' s.roles_path s.tokens_path new_store roles_there tokens_there
        decoded (yaml.decode-encode_tokens (tokens_doc s)))
      (refl, (λ n. rw (roles-load_tokens, filled) (same_roles n)), texts, users)
