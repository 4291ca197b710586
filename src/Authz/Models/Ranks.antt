-- ===== src/Authz/Models/Ranks.antt =====
-- The order of the roles: what a stronger role may do, and the strongest of several grants.
use ai_kubernetes_troublesho.Prelude.{
  ◌≤◌, ◌≡◌, refl, ap, ◌∙◌, Bool, true, false, ◌||◌, Option, none, some, List, [], ◌∷◌, arith, ltb,
  any, is_some, if◌then◌else◌,
}
use ai_kubernetes_troublesho.Authz.Models.{Permission, Role, rank, permits, max_role, highest}

-- A role of at least the same rank may do all that a role may do.
pub permits_mono :
    (r s : Role) (p : Permission) → rank r ≤ rank s → permits r p ≡ true → permits s p ≡ true
unfolding permits
permits_mono r s p h k = ground arith

permits_max :
    (a b : Role) (p : Permission)
    → permits (if ltb (rank a) (rank b) then b else a) p ≡ permits a p || permits b p
permits_max a b p = ground (arith, permits_mono a b p, permits_mono b a p)

abbrev pub role_permits : Permission → Option Role → Bool
role_permits p none = false
role_permits p (some role) = permits role p

or_assoc : (a b c : Bool) → ((a || b) || c) ≡ (a || (b || c))
or_assoc true b c = refl
or_assoc false b c = refl

permits-max_role :
    (p : Permission) (best : Role) (rest : List (Option Role))
    → permits (max_role best rest) p ≡ permits best p || any (role_permits p) rest
permits-max_role p best [] = ground arith
permits-max_role p best (none ∷ rest) = permits-max_role p best rest
permits-max_role p best (some role ∷ rest) =
    permits-max_role p (if ltb (rank best) (rank role) then role else best) rest
    ∙ ap (λ b. b || any (role_permits p) rest) (permits_max best role p)
    ∙ or_assoc (permits best p) (permits role p) (any (role_permits p) rest)

-- The strongest of several grants may do exactly what one of them may do.
pub role_permits-highest :
    (p : Permission) (roles : List (Option Role))
    → role_permits p (highest roles) ≡ any (role_permits p) roles
unfolding highest
role_permits-highest p [] = refl
role_permits-highest p (none ∷ rest) = role_permits-highest p rest
role_permits-highest p (some role ∷ rest) = permits-max_role p role rest

-- There is a strongest grant exactly when there is a grant.
pub is_some-highest : (roles : List (Option Role)) → is_some (highest roles) ≡ any is_some roles
unfolding highest
is_some-highest [] = refl
is_some-highest (none ∷ rest) = is_some-highest rest
is_some-highest (some role ∷ rest) = refl
