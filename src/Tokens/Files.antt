-- ===== src/Tokens/Files.antt =====
-- The two files of store.go: `atomicWriteYAML`, `doPersist` and `LoadFromFiles`. A disk holds the
-- contents of its files; the YAML library is a parameter.
pub mod Atomic
pub mod RoundTrip
pub mod Restart
use rune_admin.Prelude.{
  ℕ, ℤ, pos, String, ◌≡◌, ◌≢◌, Bool, true, false, Option, none, some, List, [], ◌∷◌, map, ◌==◌,
  ◌==ℕ◌, ◌||◌, if◌then◌else◌,
}
use rune_admin.Dict.{Dict, get, put, remove, keys, empty}
use rune_admin.Dict.Assoc.{is_some}
use rune_admin.Sort.{sort_strings}
use rune_admin.Tokens.Role.{Role, default_roles}
use rune_admin.Tokens.Token.{Token}
use rune_admin.Tokens.Store.{Store, schedule_persist, put_roles}

-- The fields of a role in the roles file.
pub record RoleEntry : Type 0 where
  pub scopes : List String
  pub top_k : ℤ
  pub rate_limit : String

-- A token as it is written: the key `expires` is left out where there is no expiry.
pub record WrittenToken : Type 0 where
  pub user : String
  pub token : String
  pub role : String
  pub issued_at : String
  pub expires : Option String

-- A token as it is read: a key that is not there gives "".
pub record ReadToken : Type 0 where
  pub user : String
  pub token : String
  pub role : String
  pub issued_at : String
  pub created : String
  pub expires : String

abbrev pub read_back : WrittenToken → ReadToken
read_back w = record {
  user = w.user;
  token = w.token;
  role = w.role;
  issued_at = w.issued_at;
  created = "";
  expires = elim w.expires [ none ↦ "" | some e ↦ e ];
}

-- gopkg.in/yaml.v3 at the two documents: what is decoded from an encoded document is that document.
-- `none` is a text that does not decode.
pub record Yaml : Type 0 where
  pub encode_roles : Dict RoleEntry → String
  pub decode_roles : String → Option (Dict RoleEntry)
  pub encode_tokens : List WrittenToken → String
  pub decode_tokens : String → Option (List ReadToken)
  pub decode-encode_roles :
      (doc : Dict RoleEntry)
      → (doc' : Dict RoleEntry) × (decode_roles (encode_roles doc) ≡ some doc')
        × ((n : String) → get doc' n ≡ get doc n)
  pub decode-encode_tokens :
      (doc : List WrittenToken) → decode_tokens (encode_tokens doc) ≡ some (map read_back doc)

-- What stands at a path: `os.ReadFile` may also fail on a file that is there.
pub data FileState : Type 0 where
  missing : FileState
  unreadable : FileState
  content : String → FileState

abbrev pub Disk : Type 0
Disk = Dict FileState

unfoldable pub read_file : Disk → String → FileState
read_file disk path = elim (get disk path) [ none ↦ missing | some f ↦ f ]

-- Which of the steps of a write fails, if any does; a failed encoding has written some text.
pub data Fault : Type 0 where
  in_mkdir : Fault
  in_create : Fault
  in_encode : String → Fault
  in_flush : String → Fault
  in_close : Fault
  in_rename : Fault

-- `atomicWriteYAML`, where `os.CreateTemp` gave the path `tmp`: the disk, and whether it was written.
unfoldable pub atomic_write_yaml : Option Fault → String → String → String → Disk → Disk × Bool
atomic_write_yaml (some in_mkdir) tmp path text disk = (disk, false)
atomic_write_yaml (some in_create) tmp path text disk = (disk, false)
atomic_write_yaml (some (in_encode part)) tmp path text disk =
    (remove (put disk tmp (content part)) tmp, false)
atomic_write_yaml (some (in_flush part)) tmp path text disk =
    (remove (put disk tmp (content part)) tmp, false)
atomic_write_yaml (some in_close) tmp path text disk =
    (remove (put disk tmp (content text)) tmp, false)
atomic_write_yaml (some in_rename) tmp path text disk = (put disk tmp (content text), false)
atomic_write_yaml none tmp path text disk =
    (put (remove (put disk tmp (content text)) tmp) path (content text), true)

-- The loops of `doPersist`: the entries of the roles, and those of the tokens in the users' order.
unfoldable pub put_entries : Dict Role → List String → Dict RoleEntry → Dict RoleEntry
put_entries roles [] doc = doc
put_entries roles (n ∷ ns) doc = put_entries roles ns (elim (get roles n) [
  | none ↦ doc
  | some r ↦ put doc n (record { scopes = r.scopes; top_k = r.top_k; rate_limit = r.rate_limit })
])

unfoldable pub written : Token → WrittenToken
written t = record {
  user = t.user;
  token = t.token;
  role = t.role;
  issued_at = t.issued_at;
  expires = if t.expires == "" then none else some t.expires;
}

unfoldable pub written_tokens : Dict Token → List String → List WrittenToken
unfolding written
written_tokens by_user [] = []
written_tokens by_user (u ∷ us) = elim (get by_user u) [
  | none ↦ written_tokens by_user us
  | some t ↦ written t ∷ written_tokens by_user us
]

-- How the two writes of a persist go: their faults and temporary paths.
pub record Writes : Type 0 where
  pub roles_fault : Option Fault
  pub roles_tmp : String
  pub tokens_fault : Option Fault
  pub tokens_tmp : String

unfoldable pub roles_doc : Store → Dict RoleEntry
unfolding put_entries
roles_doc s = put_entries s.roles (keys s.roles) empty

unfoldable pub tokens_doc : Store → List WrittenToken
unfolding written_tokens
tokens_doc s = written_tokens s.tokens_by_user (sort_strings (keys s.tokens_by_user))

-- Both documents are made before either is written, and a failed write is only reported.
unfoldable pub do_persist : Yaml → Writes → Store → Disk → Disk
do_persist yaml writes s disk =
    let text = yaml.encode_roles (roles_doc s) in
    let text' = yaml.encode_tokens (tokens_doc s) in
    let disk' = (atomic_write_yaml writes.roles_fault writes.roles_tmp s.roles_path text disk).0 in
    (atomic_write_yaml writes.tokens_fault writes.tokens_tmp s.tokens_path text' disk').0

pub data LoadError : Type 0 where
  parse_roles : String → LoadError
  read_roles : String → LoadError
  parse_tokens : String → LoadError
  read_tokens : String → LoadError

abbrev pub is_zero : ℤ → Bool
is_zero (pos n) = n ==ℕ 0
is_zero _ = false

-- A role with the defaults for what the file leaves out.
unfoldable pub loaded_role : String → RoleEntry → Role
loaded_role name cfg = record {
  name = name;
  scopes = cfg.scopes;
  top_k = if is_zero cfg.top_k then pos 5 else cfg.top_k;
  rate_limit = if cfg.rate_limit == "" then "30/60s" else cfg.rate_limit;
}

unfoldable pub load_roles : Dict RoleEntry → List String → Dict Role → Dict Role
unfolding loaded_role
load_roles doc [] roles = roles
load_roles doc (n ∷ ns) roles =
    load_roles doc ns
      (elim (get doc n) [ none ↦ roles | some cfg ↦ put roles n (loaded_role n cfg) ])

-- The default roles that the store does not have yet.
unfoldable pub fill_defaults : List (String × Role) → Dict Role → Dict Role
fill_defaults [] roles = roles
fill_defaults ((name, role) ∷ rest) roles =
    fill_defaults rest (if is_some (get roles name) then roles else put roles name role)

unfoldable pub loaded_token : ReadToken → Token
loaded_token e = record {
  user = e.user;
  token = e.token;
  role = e.role;
  issued_at = if e.issued_at == "" then e.created else e.issued_at;
  expires = e.expires;
}

unfoldable pub load_tokens : List ReadToken → Store → Store
unfolding loaded_token
load_tokens [] s = s
load_tokens (e ∷ es) s =
    let tok = loaded_token e in
    load_tokens es (record s {
      tokens = put s.tokens tok.token tok;
      tokens_by_user = put s.tokens_by_user tok.user tok;
    })

unfoldable pub is_missing : FileState → Bool
is_missing missing = true
is_missing _ = false

-- The part on the roles file, under the lock.
unfoldable pub load_roles_file : Yaml → String → FileState → Store → Store × Option LoadError
load_roles_file yaml path missing s = (record s { roles = put_roles default_roles s.roles }, none)
load_roles_file yaml path unreadable s = (s, some (read_roles path))
load_roles_file yaml path (content text) s = elim (yaml.decode_roles text) [
  | none ↦ (s, some (parse_roles path))
  | some doc ↦ (record s { roles = load_roles doc (keys doc) s.roles }, none)
]

unfoldable pub load_tokens_file : Yaml → String → FileState → Store → Store × Option LoadError
load_tokens_file yaml path missing s = (s, none)
load_tokens_file yaml path unreadable s = (s, some (read_tokens path))
load_tokens_file yaml path (content text) s = elim (yaml.decode_tokens text) [
  | none ↦ (s, some (parse_tokens path))
  | some doc ↦ (load_tokens doc s, none)
]

unfoldable pub load_rest : Yaml → Disk → Store → Store × Option LoadError
load_rest yaml disk s =
    let s₁ = record s { roles = fill_defaults default_roles s.roles } in
    let (s₂, failed) = load_tokens_file yaml s.tokens_path (read_file disk s.tokens_path) s₁ in
    elim failed [
      | some e ↦ (s₂, some e)
      | none ↦ (
        if is_missing (read_file disk s.roles_path) || is_missing (read_file disk s.tokens_path)
            then schedule_persist s₂
            else s₂,
        none,
      )
    ]

-- The disk does not change while the files are read.
unfoldable pub load_from_files : Yaml → Disk → String → String → Store → Store × Option LoadError
load_from_files yaml disk roles_path tokens_path s =
    let s₀ = record s { roles_path = roles_path; tokens_path = tokens_path } in
    let (s₁, failed) = load_roles_file yaml roles_path (read_file disk roles_path) s₀ in
    elim failed [ some e ↦ (s₁, some e) | none ↦ load_rest yaml disk s₁ ]
