-- ===== src/Server/Admin/Mux/Table.antt =====
-- The table of patterns of `buildAdminMux`, in its order, as a reference for the routes.
use rune_admin.Prelude.{
  ◌≤◌, String, ◌≡◌, refl, Bool, true, false, not, ◌&&◌, ◌||◌, ◌==◌, if◌then◌else◌, List, [], ◌∷◌,
  length, arith, eq_iff, get_or,
}
use rune_admin.Server.Admin.{
  AdminRequest, health, tokens, roles, issue, rotate, rotate_all, revoke, create_role, change_role,
  drop_role, no_route,
}
use rune_admin.Server.Admin.Mux.{AdminJson, Body, read_token, read_role, read_change, route}

pub data Segment : Type 0 where
  exact : String → Segment
  wild : Segment

-- A pattern, with the request that it makes of the segment at its wildcard.
pub record Pattern : Type 0 where
  pub verb : String
  pub path : List Segment
  pub request : String → AdminRequest

abbrev fits : Segment → String → Bool
fits (exact a) s = s == a
fits wild s = not (s == "")

abbrev fits_path : List Segment → List String → Bool
fits_path [] [] = true
fits_path [] (_ ∷ _) = false
fits_path (_ ∷ _) [] = false
fits_path (p ∷ ps) (s ∷ ss) = fits_path ps ss && fits p s

-- GET also takes HEAD.
abbrev fits_verb : String → String → Bool
fits_verb verb method = method == verb || (verb == "GET" && method == "HEAD")

-- The requests of all patterns that a method and a path match.
abbrev pub matching : List Pattern → String → List String → List AdminRequest
matching [] method segs = []
matching (p ∷ ps) method segs =
    let rest = matching ps method segs in
    if fits_path p.path segs && fits_verb p.verb method
    then p.request (get_or segs 1 "") ∷ rest
    else rest

abbrev pub table : AdminJson → Body → List Pattern
table json body =
    record { verb = "GET"; path = exact "health" ∷ []; request = λ _. health }
    ∷ record { verb = "GET"; path = exact "tokens" ∷ []; request = λ _. tokens }
    ∷ record { verb = "GET"; path = exact "roles" ∷ []; request = λ _. roles }
    ∷ record {
      verb = "POST";
      path = exact "tokens" ∷ [];
      request = λ _. issue (read_token json body);
    }
    ∷ record {
      verb = "POST";
      path = exact "tokens" ∷ wild ∷ exact "rotate" ∷ [];
      request = λ user. rotate user;
    }
    ∷ record {
      verb = "POST";
      path = exact "tokens" ∷ exact "_rotate_all" ∷ [];
      request = λ _. rotate_all;
    }
    ∷ record { verb = "DELETE"; path = exact "tokens" ∷ wild ∷ []; request = λ user. revoke user }
    ∷ record {
      verb = "POST";
      path = exact "roles" ∷ [];
      request = λ _. create_role (read_role json body);
    }
    ∷ record {
      verb = "PUT";
      path = exact "roles" ∷ wild ∷ [];
      request = λ name. change_role name (read_change json body);
    }
    ∷ record { verb = "DELETE"; path = exact "roles" ∷ wild ∷ []; request = λ name. drop_role name }
    ∷ []

abbrev pub first_of : List AdminRequest → AdminRequest
first_of [] = no_route
first_of (r ∷ _) = r

apart : (s a b : String) → (a == b) ≡ false → (s == a) ≡ true → (s == b) ≡ false
apart s a b ne h = ground (arith, eq_iff s a, eq_iff s b, eq_iff a b)

-- The route of a request is that of the pattern it matches, and the fallback where it matches none. No
-- request matches two patterns, so that their order does not matter.
pub route-matching :
    (json : AdminJson) (body : Body) (method : String) (segs : List String)
    → (route json body method segs ≡ first_of (matching (table json body) method segs))
      × (length (matching (table json body) method segs) ≤ 1)
unfolding route
route-matching json body method [] = (refl, omega arith)
route-matching json body method (x ∷ []) = (
  ground arith,
  ground (
    arith,
    apart x "health" "tokens" refl,
    apart x "health" "roles" refl,
    apart x "tokens" "roles" refl,
    apart method "GET" "POST" refl,
    apart method "HEAD" "POST" refl,
  ),
)
route-matching json body method (x ∷ y ∷ []) = (
  ground (
    arith,
    apart x "tokens" "roles" refl,
    apart y "_rotate_all" "" refl,
    apart method "POST" "DELETE" refl,
    apart method "POST" "PUT" refl,
    apart method "PUT" "DELETE" refl,
  ),
  ground (
    arith,
    apart x "tokens" "roles" refl,
    apart y "_rotate_all" "" refl,
    apart method "POST" "DELETE" refl,
    apart method "POST" "PUT" refl,
    apart method "PUT" "DELETE" refl,
  ),
)
route-matching json body method (x ∷ y ∷ z ∷ []) = (ground arith, ground arith)
route-matching json body method (x ∷ y ∷ z ∷ w ∷ ws) = (refl, omega arith)
