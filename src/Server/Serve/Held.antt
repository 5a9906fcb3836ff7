-- ===== src/Server/Serve/Held.antt =====
-- What is held after some events of the start and the end of the process.
use rune_admin.Prelude.{
  ℕ, ◌≡◌, ap, Bool, true, false, ◌||◌, ◌==ℕ◌, if◌then◌else◌, Option, none, some, List, [], ◌∷◌,
  ◌++◌, Bool-cases, inl, inr, arith,
}
use rune_admin.Server.Serve.{
  Resource, token_store, secret_keys, audit_log, cloud_client, eval_keys, grpc_listener, mask,
  admin_listener, admin_socket, grpc_server, signals, Event, opens, closes, activates,
  creates_index, marks_unhealthy, forces_stop, ServeError, grpc_failed,
}

abbrev number_of : Resource → ℕ
number_of token_store = 0
number_of secret_keys = 1
number_of audit_log = 2
number_of cloud_client = 3
number_of eval_keys = 4
number_of grpc_listener = 5
number_of mask = 6
number_of admin_listener = 7
number_of admin_socket = 8
number_of grpc_server = 9
number_of signals = 10

abbrev same : Resource → Resource → Bool
same r q = number_of r ==ℕ number_of q

abbrev pub has : List Resource → Resource → Bool
has [] q = false
has (r ∷ rs) q = same r q || has rs q

abbrev pub without : Resource → List Resource → List Resource
without q [] = []
without q (r ∷ rs) = let rest = without q rs in if same r q then rest else r ∷ rest

-- What is held after some events, or `none` if something is opened twice or closed while it is not held.
abbrev pub held : List Resource → List Event → Option (List Resource)
held rs [] = some rs
held rs (opens r ∷ es) = let next = held (r ∷ rs) es in if has rs r then none else next
held rs (closes r ∷ es) = let next = held (without r rs) es in if has rs r then next else none
held rs (_ ∷ es) = held rs es

-- What the caller of `Serve` holds.
abbrev pub outer : List Resource
outer = audit_log ∷ secret_keys ∷ token_store ∷ []

-- What is left if gRPC failed while it served: its server, and the admin socket, if it was up.
abbrev pub left : Bool → Option ServeError → List Resource
left true (some grpc_failed) = grpc_server ∷ admin_socket ∷ admin_listener ∷ []
left false (some grpc_failed) = grpc_server ∷ []
left _ _ = []

pub held-append :
    (rs : List Resource) (es fs : List Event) {qs : List Resource}
    → held rs es ≡ some qs
    → held rs (es ++ fs) ≡ held qs fs
held-append rs [] fs h =
    ap (λ (o : Option (List Resource)). elim o [ none ↦ none | some q ↦ held q fs ]) h
held-append rs (opens r ∷ es) fs h = elim (Bool-cases (has rs r)) [
  | inl e ↦ absurd (ground arith)
  | inr e ↦ rw e (held-append (r ∷ rs) es fs (ground arith))
]
held-append rs (closes r ∷ es) fs h = elim (Bool-cases (has rs r)) [
  | inr e ↦ absurd (ground arith)
  | inl e ↦ rw e (held-append (without r rs) es fs (ground arith))
]
held-append rs (activates ∷ es) fs h = held-append rs es fs h
held-append rs (creates_index ∷ es) fs h = held-append rs es fs h
held-append rs (marks_unhealthy ∷ es) fs h = held-append rs es fs h
held-append rs (forces_stop ∷ es) fs h = held-append rs es fs h
